-- ===== src/Events/Stream.antt =====
-- `EventStream` of astrbot_ex/core/event_stream.py: the callback `_on_event`, `_take_locked` and
-- `close`, each under the stream's condition. The clock's reading is an argument; `_buffer` and
-- `_sizes`, which have the same keys, are one list of slots.
pub mod Bounds
pub mod Arrival
pub mod Order
use astrbot_ex.Prelude.{
  ℕ, zero, suc, ◌+◌, ◌-◌, String, Bool, true, false, not, Option, none, some, List, [], ◌∷◌, ◌++◌,
  ◌&&◌, ◌||◌, ltb, leb, ◌==◌, if◌then◌else◌, length, max, min,
}
use astrbot_ex.Prelude.Table.{Table}
use astrbot_ex.Prelude.Text.{text_length}
use astrbot_ex.Events.Event.{Event, Value, text, bytes as byte_string}
use astrbot_ex.Events.Bus.{Retained, Control, queue_overflow, sequence_hole}

abbrev pub projection_budget : ℕ
projection_budget = 65536

abbrev pub value_limit : ℕ
value_limit = 4096

abbrev pub value_bytes : Value → ℕ
value_bytes (text t) = text_length t
value_bytes (byte_string n) = min n value_limit
value_bytes _ = 24

-- the loop over the entries, which ends as soon as the size is above the cap
unfoldable pub add_entries : ℕ → ℕ → Table Value → ℕ
add_entries cap size [] = size
add_entries cap size ((key, v) ∷ rest) =
    let size' = size + text_length key + 24 + value_bytes v in
    let all = add_entries cap size' rest in if ltb cap size' then cap else all

-- `estimate_frame_bytes`
unfoldable pub estimate_frame_bytes : ℕ → Event → ℕ
unfolding add_entries
estimate_frame_bytes cap e =
    add_entries cap (256 + text_length e.event_type + text_length e.message) e.payload

pub record Slot : Type 0 where
  pub sequence : ℕ
  pub frame : Retained
  pub size : ℕ

pub record Stream : Type 0 where
  pub stream_id : String
  pub head : ℕ
  pub max_frames : ℕ
  pub max_bytes : ℕ
  pub reorder_grace : ℕ
  pub controls : List Control
  pub buffer : List Slot
  pub bytes : ℕ
  pub next : ℕ
  pub dropped_through : ℕ
  pub dropped_total : ℕ
  pub hole_since : Option ℕ
  pub closed : Bool

-- `__init__`; the history goes to the client apart
abbrev pub open_stream : String → ℕ → List Control → ℕ → ℕ → ℕ → Stream
open_stream stream_id head controls max_frames max_bytes grace = record {
  stream_id = stream_id;
  head = head;
  max_frames = max_frames;
  max_bytes = max_bytes;
  reorder_grace = grace;
  controls = controls;
  buffer = [];
  bytes = 0;
  next = head + 1;
  dropped_through = 0;
  dropped_total = 0;
  hole_since = none;
  closed = false;
}

unfoldable pub slot_at : ℕ → List Slot → Option Slot
slot_at n [] = none
slot_at n (s ∷ ss) = let rest = slot_at n ss in if s.sequence == n then some s else rest

unfoldable pub without : ℕ → List Slot → List Slot
without n [] = []
without n (s ∷ ss) = let rest = without n ss in if s.sequence == n then ss else s ∷ rest

abbrev pub lesser : ℕ → Option ℕ → Option ℕ
lesser n none = some n
lesser n (some m) = some (min n m)

abbrev greater : ℕ → Option ℕ → Option ℕ
greater n none = some n
greater n (some m) = some (max n m)

-- `min(self._buffer)`
unfoldable pub lowest : List Slot → Option ℕ
lowest [] = none
lowest (s ∷ ss) = lesser s.sequence (lowest ss)

-- `max(self._buffer)`
unfoldable pub highest : List Slot → Option ℕ
highest [] = none
highest (s ∷ ss) = greater s.sequence (highest ss)

abbrev pub is_over : Stream → Bool
is_over s = ltb s.max_frames (length s.buffer) || ltb s.max_bytes s.bytes

abbrev pub size_of : Option Slot → ℕ
size_of none = 0
size_of (some s) = s.size

-- one pass of the loop of `_on_event`
unfoldable pub drop_lowest : Stream → Stream
unfolding lowest slot_at without
drop_lowest s = elim (lowest s.buffer) [
  | none ↦ s
  | some n ↦ record s {
    bytes = s.bytes - size_of (slot_at n s.buffer);
    buffer = without n s.buffer;
    dropped_through = max s.dropped_through n;
    dropped_total = s.dropped_total + 1;
  }
]

-- `while len(...) > ... or ...`; the fuel is the number of frames
unfoldable pub evict : ℕ → Stream → Stream
unfolding drop_lowest
evict zero s = s
evict (suc fuel) s = let rest = evict fuel (drop_lowest s) in if is_over s then rest else s

abbrev has : Option Slot → Bool
has none = false
has (some s) = true

abbrev pub slot_of : Retained → Slot
slot_of r = record {
  sequence = r.log.sequence;
  frame = r;
  size = estimate_frame_bytes projection_budget r.event;
}

abbrev pub enqueue : Retained → Stream → Stream
enqueue r s = record s { buffer = s.buffer ++ slot_of r ∷ []; bytes = s.bytes + (slot_of r).size }

-- closed, older than the subscription, or there already
abbrev pub is_ignored : Retained → Stream → Bool
is_ignored r s = s.closed || leb r.log.sequence s.head || has (slot_at r.log.sequence s.buffer)

-- `_on_event`
unfoldable pub on_event : Retained → Stream → Stream
unfolding evict slot_at estimate_frame_bytes
on_event r s = if is_ignored r s then s else evict (length (enqueue r s).buffer) (enqueue r s)

pub data Frame : Type 0 where
  event : Retained → Frame
  control : Control → Frame

abbrev pub gap : Bool → Option ℕ → Stream → Control
gap overflow dropped s = record {
  reason = if overflow then queue_overflow else sequence_hole;
  oldest_sequence = lowest s.buffer;
  newest_sequence = highest s.buffer;
  dropped_count = dropped;
}

-- the last part of `_take_locked`: the next sequence is not in the buffer
unfoldable pub take_hole : ℕ → Stream → Option Frame × Stream
unfolding lowest highest
take_hole now s = elim (lowest s.buffer) [
  | none ↦ (none, s)
  | some n ↦ elim s.hole_since [
    | none ↦ (none, record s { hole_since = some now })
    | some since ↦
        if leb s.reorder_grace (now - since)
        then (some (control (gap false none s)), record s { next = n; hole_since = none })
        else (none, s)
  ]
]

unfoldable pub take_next : ℕ → Stream → Option Frame × Stream
unfolding take_hole slot_at without
take_next now s = elim (slot_at s.next s.buffer) [
  | none ↦ take_hole now s
  | some slot ↦ (
    some (event slot.frame),
    record s {
      buffer = without s.next s.buffer;
      bytes = s.bytes - slot.size;
      next = s.next + 1;
      hole_since = none;
    },
  )
]

-- `_take_locked`
unfoldable pub take_locked : ℕ → Stream → Option Frame × Stream
unfolding take_next
take_locked now s = elim s.controls [
  | c ∷ cs ↦ (some (control c), record s { controls = cs })
  | [] ↦
      if leb s.next s.dropped_through
      then (let dropped = s.dropped_through - s.next + 1 in
          let skipped = record s { next = s.dropped_through + 1 } in
          (some (control (gap true (some dropped) skipped)), skipped))
      else take_next now s
]

-- `close`
unfoldable pub close : Stream → Stream
close s = if s.closed then s else record s { closed = true; buffer = []; bytes = 0 }

-- What happens to a stream: a callback, a `get` of the reader at a time, a `close`.
pub data Step : Type 0 where
  calling : Retained → Step
  taking : ℕ → Step
  closing : Step

unfoldable pub step : Step → Stream → Stream
unfolding on_event take_locked close
step (calling r) s = on_event r s
step (taking now) s = (take_locked now s).1
step closing s = close s

unfoldable pub run : List Step → Stream → Stream
run [] s = s
run (e ∷ es) s = run es (step e s)
