-- ===== src/Topics/Laws.antt =====
-- What the topic bus keeps and delivers (astrbot_ex/core/topic_bus.py).
use astrbot_ex.Prelude.{
  ℕ, ◌-◌, ◌≤◌, String, ◌≡◌, inl, inr, refl, ap, true, false, Option, none, some, List, [], ◌∷◌,
  ◌++◌, arith, leb, ◌==◌, if◌then◌else◌, Bool-cases, length, drop, length-drop, length-append,
}
use astrbot_ex.Prelude.Table.{find, find-put}
use astrbot_ex.Topics.{
  TopicMessage, TopicInbox, TopicBus, new_topic_bus, put_message, get_nowait, drain, take_latest,
  receives, deliver, or_empty, push_recent, publish, update_inbox, TopicStep, publishing,
  subscribing, opening, unsubscribing, closing, reading, step, run,
}

append_free :
    (maxsize : ℕ) (m : TopicMessage) (q : List TopicMessage)
    → leb maxsize (length q) ≡ false
    → put_message maxsize m q ≡ q ++ m ∷ []
unfolding put_message
append_free maxsize m q free = ground arith

append_full :
    (maxsize : ℕ) (m x : TopicMessage) (q : List TopicMessage)
    → length (x ∷ q) ≤ maxsize
    → leb maxsize (length (x ∷ q)) ≡ true
    → put_message maxsize m (x ∷ q) ≡ q ++ m ∷ []
unfolding put_message
append_full maxsize m x q short full = ground arith

put_free :
    (maxsize : ℕ) (m : TopicMessage) (q : List TopicMessage)
    → 1 ≤ maxsize
    → leb maxsize (length q) ≡ false
    → put_message maxsize m q ≡ push_recent maxsize m q
put_free maxsize m q room free =
    let none_over : length (q ++ m ∷ []) - maxsize ≡ 0 =
      ground (arith, length-append q (m ∷ []), free) in
    rw (append_free maxsize m q free, none_over) refl

put_full :
    (maxsize : ℕ) (m : TopicMessage) (q : List TopicMessage)
    → 1 ≤ maxsize
    → length q ≤ maxsize
    → leb maxsize (length q) ≡ true
    → put_message maxsize m q ≡ push_recent maxsize m q
unfolding put_message
put_full maxsize m [] room short full = ground (arith, full)
put_full maxsize m (x ∷ q) room short full =
    let one_over : length (x ∷ q ++ m ∷ []) - maxsize ≡ 1 =
      ground (arith, length-append q (m ∷ []), full) in
    rw (append_full maxsize m x q short full, one_over) refl

-- The put of a queue that evicts on `Full` is the append of a bounded deque: it keeps the newest
-- messages, the new one last, for a queue within its capacity, which is at least 1.
pub put_message-push_recent :
    (maxsize : ℕ) (m : TopicMessage) (q : List TopicMessage)
    → 1 ≤ maxsize
    → length q ≤ maxsize
    → put_message maxsize m q ≡ push_recent maxsize m q
put_message-push_recent maxsize m q room short = elim (Bool-cases (leb maxsize (length q))) [
  | inl full ↦ put_full maxsize m q room short full
  | inr free ↦ put_free maxsize m q room free
]

-- the queue is within its capacity, which is at least 1
abbrev pub Fits : List TopicInbox → Type 0
Fits [] = Unit
Fits (i ∷ is) = ((1 ≤ i.maxsize) × (length i.queue ≤ i.maxsize)) × Fits is

put_message-le :
    (maxsize : ℕ) (m : TopicMessage) (q : List TopicMessage)
    → 1 ≤ maxsize
    → length q ≤ maxsize
    → length (put_message maxsize m q) ≤ maxsize
unfolding put_message
put_message-le maxsize m q room short =
    ground (arith, length-append q (m ∷ []), length-append (drop 1 q) (m ∷ []), length-drop 1 q)

deliver-Fits :
    (topic : String) (m : TopicMessage) (is : List TopicInbox) → Fits is → Fits (deliver topic m is)
unfolding deliver
deliver-Fits topic m [] f = tt
deliver-Fits topic m (i ∷ is) f =
    ground (arith, put_message-le i.maxsize m i.queue, deliver-Fits topic m is)

append-Fits :
    (is : List TopicInbox) (i : TopicInbox)
    → Fits is
    → 1 ≤ i.maxsize
    → length i.queue ≤ i.maxsize
    → Fits (is ++ i ∷ [])
append-Fits [] i f a b = ((a, b), tt)
append-Fits (x ∷ is) i f a b = (f.0, append-Fits is i f.1 a b)

update-Fits :
    (g : TopicInbox → TopicInbox) (token : ℕ) (is : List TopicInbox)
    → ((i : TopicInbox) → ((g i).maxsize ≡ i.maxsize) × (length (g i).queue ≤ length i.queue))
    → Fits is
    → Fits (update_inbox g token is)
unfolding update_inbox
update-Fits g token [] h f = tt
update-Fits g token (i ∷ is) h f = elim (Bool-cases (i.token == token)) [
  | inl this ↦ rw this (ground (arith, h i, f), update-Fits g token is h f.1)
  | inr other ↦ rw other (f.0, update-Fits g token is h f.1)
]

get_nowait-le : (q : List TopicMessage) → length (get_nowait q).1 ≤ length q
unfolding get_nowait
get_nowait-le [] = omega arith
get_nowait-le (m ∷ q) = omega arith

take_latest-le : (q : List TopicMessage) → length (take_latest q).1 ≤ length q
unfolding take_latest
take_latest-le [] = omega arith
take_latest-le (m ∷ q) = omega arith

-- the last messages of a topic are within the limit
pub record IsKept (bus : TopicBus) : Type 0 where
  pub room : 1 ≤ bus.recent_limit
  pub inboxes : Fits bus.inboxes
  pub recent : (topic : String) → length (or_empty (find topic bus.recent)) ≤ bus.recent_limit

publish-IsKept :
    (topic : String) (m : TopicMessage) (bus : TopicBus)
    → IsKept bus
    → IsKept (publish topic m bus).1
unfolding publish
publish-IsKept topic m bus v = record {
  room = v.room;
  inboxes = deliver-Fits topic m bus.inboxes v.inboxes;
  recent = λ t. ground (
    arith,
    find-put topic t (push_recent bus.recent_limit m (or_empty (find topic bus.recent))) bus.recent,
    length-drop (length (or_empty (find topic bus.recent) ++ m ∷ []) - bus.recent_limit)
        (or_empty (find topic bus.recent) ++ m ∷ []),
    length-append (or_empty (find topic bus.recent)) (m ∷ []),
    v.recent t,
    v.room,
  );
}

step-IsKept : (e : TopicStep) (bus : TopicBus) → IsKept bus → IsKept (step e bus)
unfolding step
step-IsKept (publishing topic m) bus v = publish-IsKept topic m bus v
step-IsKept (subscribing topic) bus v = record {
  room = v.room;
  inboxes = v.inboxes;
  recent = v.recent;
}
step-IsKept (opening topic n) bus v = record {
  room = v.room;
  inboxes = append-Fits bus.inboxes _ v.inboxes (omega arith) (omega arith);
  recent = v.recent;
}
step-IsKept (unsubscribing topic token) bus v = record {
  room = v.room;
  inboxes = v.inboxes;
  recent = v.recent;
}
step-IsKept (closing token) bus v = record {
  room = v.room;
  inboxes = update-Fits _ token bus.inboxes (λ i. (refl, omega arith)) v.inboxes;
  recent = v.recent;
}
step-IsKept (reading all token) bus v = record {
  room = v.room;
  inboxes =
      update-Fits _ token bus.inboxes
        (λ i. (refl, ground (arith, take_latest-le i.queue, get_nowait-le i.queue))) v.inboxes;
  recent = v.recent;
}

run_keeps : (es : List TopicStep) (bus : TopicBus) → IsKept bus → IsKept (run es bus)
unfolding run
run_keeps [] bus v = v
run_keeps (e ∷ es) bus v = run_keeps es (step e bus) (step-IsKept e bus v)

-- However messages are published and read, no inbox holds more messages than its capacity and no
-- topic more recent ones than the limit of the bus.
pub run-IsKept : (limit : ℕ) (es : List TopicStep) → IsKept (run es (new_topic_bus limit))
run-IsKept limit es =
    run_keeps es (new_topic_bus limit)
      (record { room = omega arith; inboxes = tt; recent = λ t. unfold find in omega arith })

drain-append : (first m : TopicMessage) (q : List TopicMessage) → drain first (q ++ m ∷ []) ≡ m
unfolding drain
drain-append first m [] = refl
drain-append first m (x ∷ q) = drain-append x m q

take_latest-append :
    (q : List TopicMessage) (m : TopicMessage) → take_latest (q ++ m ∷ []) ≡ (some m, [])
unfolding take_latest
take_latest-append [] m = unfold drain in refl
take_latest-append (x ∷ q) m = ap (λ l. (some l, [])) (drain-append x m q)

-- the inbox with the token, the first one
unfoldable pub inbox_at : ℕ → List TopicInbox → Option TopicInbox
inbox_at token [] = none
inbox_at token (i ∷ is) = let rest = inbox_at token is in if i.token == token then some i else rest

put_message-ends :
    (maxsize : ℕ) (m : TopicMessage) (q : List TopicMessage)
    → 1 ≤ maxsize
    → length q ≤ maxsize
    → (q' : List TopicMessage) × (put_message maxsize m q ≡ q' ++ m ∷ [])
put_message-ends maxsize m [] room short = ([], append_free maxsize m [] (ground arith))
put_message-ends maxsize m (x ∷ q) room short = elim (Bool-cases (leb maxsize (length (x ∷ q)))) [
  | inl full ↦ (q, append_full maxsize m x q short full)
  | inr free ↦ (x ∷ q, append_free maxsize m (x ∷ q) free)
]

inbox_at-Fits :
    (token : ℕ) (i : TopicInbox) (is : List TopicInbox)
    → Fits is
    → inbox_at token is ≡ some i
    → (1 ≤ i.maxsize) × (length i.queue ≤ i.maxsize)
unfolding inbox_at
inbox_at-Fits token i [] f at = ground arith
inbox_at-Fits token i (x ∷ is) f at = ground (arith, f, inbox_at-Fits token i is f.1)

abbrev with_message : TopicMessage → TopicInbox → TopicInbox
with_message m i = record i { queue = put_message i.maxsize m i.queue }

deliver_at :
    (topic : String) (m : TopicMessage) (token : ℕ) (i : TopicInbox) (is : List TopicInbox)
    → inbox_at token is ≡ some i
    → receives topic i ≡ true
    → inbox_at token (deliver topic m is) ≡ some (with_message m i)
unfolding inbox_at deliver
deliver_at topic m token i [] at r = ground arith
deliver_at topic m token i (x ∷ is) at r = ground (arith, deliver_at topic m token i is)

-- A reader that takes the latest message of its inbox right after a publication on the topic gets the
-- published message, however full the inbox was, and leaves the inbox empty.
pub deliver-take_latest :
    (topic : String) (m : TopicMessage) (token : ℕ) (i : TopicInbox) (is : List TopicInbox)
    → Fits is
    → inbox_at token is ≡ some i
    → receives topic i ≡ true
    → (j : TopicInbox) × (inbox_at token (deliver topic m is) ≡ some j)
      × (take_latest j.queue ≡ (some m, []))
deliver-take_latest topic m token i is f at r =
    let (room, short) = inbox_at-Fits token i is f at in
    let (q, ends) = put_message-ends i.maxsize m i.queue room short in
    (with_message m i, deliver_at topic m token i is at r, rw ends (take_latest-append q m))
