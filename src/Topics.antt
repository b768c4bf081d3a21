-- ===== src/Topics.antt =====
-- The topic bus and its inboxes: `TopicBus` and `TopicInbox` of astrbot_ex/core/topic_bus.py. A
-- queue from `queue.Queue` is a list with its capacity; a subscription is its token. An inbox stays
-- with its owner after `close`, so the inboxes are one list of objects with a flag for registered.
pub mod Laws
mod Examples
use astrbot_ex.Prelude.{
  ℕ, ◌+◌, ◌-◌, String, Bool, true, false, not, Option, none, some, List, [], ◌∷◌, ◌++◌, ◌&&◌, ltb,
  leb, ◌==◌, ◌=?◌, if◌then◌else◌, length, drop, max, map,
}
use astrbot_ex.Prelude.Table.{Table, find, put}

pub record TopicMessage : Type 0 where
  pub topic : String
  pub timestamp : ℕ
  pub source : String
  -- the JSON text of the payload
  pub payload : String
  pub frame : Option String
  pub seq : Option ℕ
  pub ttl_ms : Option ℕ

pub record TopicInbox : Type 0 where
  pub topic : String
  pub token : ℕ
  pub maxsize : ℕ
  pub queue : List TopicMessage
  -- in `_inboxes`
  pub registered : Bool

pub record Subscriber : Type 0 where
  pub topic : String
  pub token : ℕ

pub record TopicBus : Type 0 where
  pub recent_limit : ℕ
  pub subscribers : List Subscriber
  pub inboxes : List TopicInbox
  pub latest : Table TopicMessage
  pub recent : Table (List TopicMessage)
  pub next_token : ℕ

-- `__init__`
abbrev pub new_topic_bus : ℕ → TopicBus
new_topic_bus recent_limit = record {
  recent_limit = max 1 recent_limit;
  subscribers = [];
  inboxes = [];
  latest = [];
  recent = [];
  next_token = 1;
}

-- `queue.put_nowait`; `none` is `Full`
abbrev pub put_nowait : ℕ → TopicMessage → List TopicMessage → Option (List TopicMessage)
put_nowait maxsize m q = if leb maxsize (length q) then none else some (q ++ m ∷ [])

-- `_put`: on `Full` the oldest message goes, and the put is tried once more
unfoldable pub put_message : ℕ → TopicMessage → List TopicMessage → List TopicMessage
put_message maxsize m q = elim (put_nowait maxsize m q) [
  | some q' ↦ q'
  | none ↦ elim (put_nowait maxsize m (drop 1 q)) [ some q' ↦ q' | none ↦ drop 1 q ]
]

-- `get_nowait` on the queue
unfoldable pub get_nowait : List TopicMessage → Option TopicMessage × List TopicMessage
get_nowait [] = (none, [])
get_nowait (m ∷ q) = (some m, q)

-- the loop of `take_latest`, until the queue is empty
unfoldable pub drain : TopicMessage → List TopicMessage → TopicMessage
drain latest [] = latest
drain latest (m ∷ q) = drain m q

-- `take_latest`
unfoldable pub take_latest : List TopicMessage → Option TopicMessage × List TopicMessage
unfolding drain
take_latest [] = (none, [])
take_latest (m ∷ q) = (some (drain m q), [])

abbrev pub receives : String → TopicInbox → Bool
receives topic i = i.registered && i.topic =? topic

abbrev deliver_one : String → TopicMessage → TopicInbox → TopicInbox
deliver_one topic m i =
    if receives topic i then record i { queue = put_message i.maxsize m i.queue } else i

unfoldable pub deliver : String → TopicMessage → List TopicInbox → List TopicInbox
unfolding put_message
deliver topic m [] = []
deliver topic m (i ∷ is) = deliver_one topic m i ∷ deliver topic m is

abbrev pub or_empty : Option (List TopicMessage) → List TopicMessage
or_empty none = []
or_empty (some ms) = ms

-- `append` of a bounded deque
abbrev pub push_recent : ℕ → TopicMessage → List TopicMessage → List TopicMessage
push_recent limit m ms = let all = ms ++ m ∷ [] in drop (length all - limit) all

-- the tokens of the handlers that `publish` calls, in order
unfoldable pub called : String → List Subscriber → List ℕ
called topic [] = []
called topic (s ∷ ss) =
    let rest = called topic ss in if s.topic =? topic then s.token ∷ rest else rest

-- `publish`
unfoldable pub publish : String → TopicMessage → TopicBus → List ℕ × TopicBus
unfolding called deliver
publish topic m bus = (
  called topic bus.subscribers,
  record bus {
    latest = put topic m bus.latest;
    recent =
        put topic (push_recent bus.recent_limit m (or_empty (find topic bus.recent))) bus.recent;
    inboxes = deliver topic m bus.inboxes;
  },
)

-- `subscribe`
unfoldable pub subscribe : String → TopicBus → ℕ × TopicBus
subscribe topic bus = (
  bus.next_token,
  record bus {
    subscribers = bus.subscribers ++ (record { topic = topic; token = bus.next_token }) ∷ [];
    next_token = bus.next_token + 1;
  },
)

-- `subscribe_inbox`
unfoldable pub subscribe_inbox : String → ℕ → TopicBus → ℕ × TopicBus
subscribe_inbox topic max_messages bus = (
  bus.next_token,
  record bus {
    inboxes =
        bus.inboxes
        ++ (record {
          topic = topic;
          token = bus.next_token;
          maxsize = max 1 max_messages;
          queue = [];
          registered = true;
        })
          ∷ [];
    next_token = bus.next_token + 1;
  },
)

unfoldable pub remove_subscriber : String → ℕ → List Subscriber → List Subscriber
remove_subscriber topic token [] = []
remove_subscriber topic token (s ∷ ss) =
    let rest = remove_subscriber topic token ss in
    if s.topic =? topic && s.token == token then rest else s ∷ rest

-- `unsubscribe`
unfoldable pub unsubscribe : String → ℕ → TopicBus → TopicBus
unfolding remove_subscriber
unsubscribe topic token bus = record bus {
  subscribers = remove_subscriber topic token bus.subscribers;
}

-- a change of the inbox with the token
unfoldable pub update_inbox : (TopicInbox → TopicInbox) → ℕ → List TopicInbox → List TopicInbox
update_inbox f token [] = []
update_inbox f token (i ∷ is) =
    let rest = update_inbox f token is in if i.token == token then f i ∷ rest else i ∷ rest

-- `TopicInbox.close`
unfoldable pub close_inbox : ℕ → TopicBus → TopicBus
unfolding update_inbox
close_inbox token bus = record bus {
  inboxes = update_inbox (λ i. record i { registered = false }) token bus.inboxes;
}

-- the reader's side: `get` and `take_latest` of the inbox with the token
unfoldable pub read_inbox : Bool → ℕ → TopicBus → TopicBus
unfolding update_inbox get_nowait take_latest
read_inbox all token bus = record bus {
  inboxes =
      update_inbox
        (λ i. record i { queue = if all then (take_latest i.queue).1 else (get_nowait i.queue).1 })
        token bus.inboxes;
}

-- `get_latest`
abbrev pub get_latest : String → TopicBus → Option TopicMessage
get_latest topic bus = find topic bus.latest

-- `get_recent`; a limit of 0 is the whole list, as `[-0:]` is
unfoldable pub get_recent : String → Option ℕ → TopicBus → List TopicMessage
get_recent topic none bus = or_empty (find topic bus.recent)
get_recent topic (some limit) bus =
    let recent = or_empty (find topic bus.recent) in
    if leb (length recent) limit
    then recent
    else if limit == 0
    then recent
    else drop (length recent - limit) recent

pub data TopicStep : Type 0 where
  publishing : String → TopicMessage → TopicStep
  subscribing : String → TopicStep
  opening : String → ℕ → TopicStep
  unsubscribing : String → ℕ → TopicStep
  closing : ℕ → TopicStep
  reading : Bool → ℕ → TopicStep

unfoldable pub step : TopicStep → TopicBus → TopicBus
unfolding publish subscribe subscribe_inbox unsubscribe close_inbox read_inbox
step (publishing topic m) bus = (publish topic m bus).1
step (subscribing topic) bus = (subscribe topic bus).1
step (opening topic n) bus = (subscribe_inbox topic n bus).1
step (unsubscribing topic token) bus = unsubscribe topic token bus
step (closing token) bus = close_inbox token bus
step (reading all token) bus = read_inbox all token bus

unfoldable pub run : List TopicStep → TopicBus → TopicBus
run [] bus = bus
run (e ∷ es) bus = run es (step e bus)
