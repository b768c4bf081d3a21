-- ===== src/Events/Bus.antt =====
-- The state of `EventBus` and its operations `emit`, `emit_throttled`, `recent`, `_history_locked`
-- of astrbot_ex/core/event_bus.py. Callbacks run outside the lock: they are steps of each stream.
-- A cursor is the parsed one; the clock's reading and the interval are in one unit.
pub mod Laws
pub mod Throttle
use Prim.Native.String
use astrbot_ex.Prelude.{
  ℕ, ◌+◌, ◌-◌, String, Bool, true, false, not, Option, none, some, List, [], ◌∷◌, ◌++◌, ◌&&◌, ◌||◌,
  ltb, leb, ◌==◌, ◌=?◌, if◌then◌else◌, length, drop,
}
use astrbot_ex.Prelude.Table.{Table, find, put}
use astrbot_ex.Events.Event.{Event, Log, Level, Value, block, normalize_level, should_publish}

-- A retained event, with its reserved block.
pub record Retained : Type 0 where
  pub event : Event
  pub log : Log

pub record Bus : Type 0 where
  pub stream_id : String
  -- `deque(maxlen=max_events)`
  pub events : List Retained
  pub max_events : ℕ
  pub sequence : ℕ
  pub last_emit_at : Table ℕ

abbrev pub new_bus : String → ℕ → Bus
new_bus stream_id max_events = record {
  stream_id = stream_id;
  events = [];
  max_events = max_events;
  sequence = 0;
  last_emit_at = [];
}

-- `append` of a bounded deque
abbrev pub push {ℓ} : {A : Type ℓ} → ℕ → A → List A → List A
push limit x xs = let all = xs ++ x ∷ [] in drop (length all - limit) all

-- `data["log"]` is replaced by the reserved block
abbrev pub stamp : Event → Log → Retained
stamp e log = record { event = record e { payload = put "log" (block log) e.payload }; log = log }

abbrev pub next_log : Level → Bus → Log
next_log level bus = record {
  level = level;
  stream_id = bus.stream_id;
  sequence = bus.sequence + 1;
}

-- `emit`: the retained event that the subscribers get, if it is published
unfoldable pub emit : (String → String) → Event → Bus → Option Retained × Bus
emit lower e bus =
    let level = normalize_level lower e in
    if should_publish lower e level
    then (let kept = stamp e (next_log level bus) in
        (
          some kept,
          record bus { events = push bus.max_events kept bus.events; sequence = bus.sequence + 1 },
        ))
    else (none, bus)

abbrev pub max_throttle_keys : ℕ
max_throttle_keys = 512

-- an earlier emission of the key lies within the interval
abbrev pub too_soon : Option ℕ → ℕ → ℕ → Bool
too_soon none now interval = false
too_soon (some last) now interval = ltb (now - last) interval

abbrev own_key : Event → String
own_key e = String.◌++◌ e.event_type (String.◌++◌ ":" e.message)

abbrev pub throttle_key : Option String → Event → String
throttle_key (some key) e = if key =? "" then own_key e else key
throttle_key none e = own_key e

abbrev pub forget : Table ℕ → Table ℕ
forget t = drop (length t - max_throttle_keys) t

-- `emit_throttled`; `none` where the event is held back
unfoldable pub emit_throttled :
    (String → String) → Event → ℕ → Option String → ℕ → Bus → Option (Option Retained) × Bus
unfolding emit
emit_throttled lower e interval key now bus =
    let k = throttle_key key e in
    if too_soon (find k bus.last_emit_at) now interval
    then (none, bus)
    else (let noted = record bus { last_emit_at = forget (put k now bus.last_emit_at) } in
        let (out, after) = emit lower e noted in (some out, after))

-- `recent`; a limit of 0 is the whole list, as `[-0:]` is
unfoldable pub recent : ℕ → Bus → List Retained
recent limit bus = if limit == 0 then bus.events else drop (length bus.events - limit) bus.events

pub data Reason : Type 0 where
  cross_stream cursor_ahead history_expired queue_overflow sequence_hole : Reason

-- `control_frame`; the bounds are the ring's
pub record Control : Type 0 where
  pub reason : Reason
  pub oldest_sequence : Option ℕ
  pub newest_sequence : Option ℕ
  pub dropped_count : Option ℕ

abbrev pub oldest : List Retained → Option ℕ
oldest [] = none
oldest (r ∷ rs) = some r.log.sequence

abbrev pub newest : List Retained → Option ℕ
newest [] = none
newest (r ∷ []) = some r.log.sequence
newest (r ∷ s ∷ rs) = newest (s ∷ rs)

unfoldable pub after : ℕ → List Retained → List Retained
after n [] = []
after n (r ∷ rs) = let rest = after n rs in if ltb n r.log.sequence then r ∷ rest else rest

abbrev pub expired : Option ℕ → ℕ → Bool
expired none n = false
expired (some o) n = ltb n (o - 1)

abbrev pub gap_before : Option ℕ → ℕ → ℕ
gap_before none n = 0
gap_before (some o) n = o - 1 - n

abbrev pub control : Reason → Option ℕ → List Retained → Control
control reason dropped retained = record {
  reason = reason;
  oldest_sequence = oldest retained;
  newest_sequence = newest retained;
  dropped_count = dropped;
}

-- `_history_locked`
unfoldable pub history : Option (String × ℕ) → Bus → List Retained × List Control
unfolding after
history none bus = (drop (length bus.events - 50) bus.events, [])
history (some (stream, n)) bus =
    if not (stream =? bus.stream_id)
    then (bus.events, control cross_stream none bus.events ∷ [])
    else if ltb bus.sequence n
    then (bus.events, control cursor_ahead none bus.events ∷ [])
    else if n == bus.sequence
    then ([], [])
    else if expired (oldest bus.events) n
    then (
      bus.events,
      control history_expired (some (gap_before (oldest bus.events) n)) bus.events ∷ [],
    )
    else (after n bus.events, [])
