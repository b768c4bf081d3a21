-- ===== src/Events/Stream/Bounds.antt =====
-- The bounds of a stream's buffer (astrbot_ex/core/event_stream.py).
use astrbot_ex.Prelude.{
  ℕ, zero, suc, ◌+◌, ◌-◌, ◌≤◌, ◌≡◌, ◌≢◌, ◌⊎◌, inl, inr, refl, Option, none, some, List, [], ◌∷◌,
  ◌++◌, arith, Bool-cases, length, max,
}
use astrbot_ex.Events.Bus.{Retained}
use astrbot_ex.Events.Stream.{
  Slot, Stream, slot_at, without, lowest, lesser, is_over, drop_lowest, evict, size_of, slot_of,
  enqueue, is_ignored, on_event, take_hole, take_next, take_locked, close, Step, calling, taking,
  closing, step, run,
}

abbrev pub total : List Slot → ℕ
total [] = 0
total (s ∷ ss) = s.size + total ss

total-append : (ss ts : List Slot) → total (ss ++ ts) ≡ total ss + total ts
total-append [] ts = omega arith
total-append (s ∷ ss) ts = omega (arith, total-append ss ts)

-- the counter of bytes is the sum of the sizes
abbrev pub Counted : Stream → Type 0
Counted s = s.bytes ≡ total s.buffer

pub record IsBounded (s : Stream) : Type 0 where
  pub counted : Counted s
  pub frames : length s.buffer ≤ s.max_frames
  pub bytes : s.bytes ≤ s.max_bytes

-- what one slot's removal does to the count and the sum
abbrev pub Removed : List Slot → List Slot → Option Slot → Type 0
Removed ss rest none = rest ≡ ss
Removed ss rest (some s) = (length ss ≡ length rest + 1) × (total ss ≡ total rest + s.size)

without-Removed : (n : ℕ) (ss : List Slot) → Removed ss (without n ss) (slot_at n ss)
unfolding without slot_at
without-Removed n [] = refl
without-Removed n (s ∷ ss) = ground (arith, without-Removed n ss)

lowest_there : (ss : List Slot) (n : ℕ) → lowest ss ≡ some n → slot_at n ss ≢ none
unfolding lowest slot_at
lowest_there [] n h = λ _. cc
lowest_there (s ∷ ss) n h = at (lowest ss) (lowest_there ss) h
  where
    at :
        (o : Option ℕ)
        → ((m : ℕ) → o ≡ some m → slot_at m ss ≢ none)
        → lesser s.sequence o ≡ some n
        → slot_at n (s ∷ ss) ≢ none
    at none there h = ground arith
    at (some m) there h = ground (arith, there m refl)

length_zero : (ss : List Slot) → length ss ≤ 0 → ss ≡ []
length_zero [] h = refl
length_zero (s ∷ ss) h = ground arith

lowest-none : (ss : List Slot) → lowest ss ≡ none → ss ≡ []
unfolding lowest
lowest-none [] h = refl
lowest-none (s ∷ ss) h = ground arith

-- one pass of the loop removes one frame and its size, and nothing of the limits
drop_lowest_lem :
    (s : Stream)
    → Counted s
    → ((s.buffer ≡ []) × (drop_lowest s ≡ s))
      ⊎ ((length s.buffer ≡ length (drop_lowest s).buffer + 1) × Counted (drop_lowest s))
unfolding drop_lowest
drop_lowest_lem s c = at (lowest s.buffer) (lowest-none s.buffer) (lowest_there s.buffer)
  where
    at :
        (o : Option ℕ)
        → (o ≡ none → s.buffer ≡ [])
        → ((n : ℕ) → o ≡ some n → slot_at n s.buffer ≢ none)
        → (let dropped = elim o as (λ _. Stream) [
          | none ↦ s
          | some n ↦ record s {
            bytes = s.bytes - size_of (slot_at n s.buffer);
            buffer = without n s.buffer;
            dropped_through = max s.dropped_through n;
            dropped_total = s.dropped_total + 1;
          }
        ] in
            ((s.buffer ≡ []) × (dropped ≡ s))
            ⊎ ((length s.buffer ≡ length dropped.buffer + 1) × Counted dropped))
    at none empty there = inl (empty refl, refl)
    at (some n) empty there = inr (ground (arith, there n refl, without-Removed n s.buffer))

drop_lowest_limits :
    (s : Stream)
    → ((drop_lowest s).max_frames ≡ s.max_frames) × ((drop_lowest s).max_bytes ≡ s.max_bytes)
unfolding drop_lowest
drop_lowest_limits s = ground arith

-- With as much fuel as there are frames, the loop ends within the limits.
evict-IsBounded :
    (fuel : ℕ) (s : Stream) → Counted s → length s.buffer ≤ fuel → IsBounded (evict fuel s)
unfolding evict
evict-IsBounded zero s c h = ground (arith, length_zero s.buffer h)
evict-IsBounded (suc fuel) s c h = elim (Bool-cases (is_over s)) [
  | inl over ↦ rw over (
      evict-IsBounded fuel (drop_lowest s) (ground (arith, drop_lowest_lem s c))
        (ground (arith, drop_lowest_lem s c)))
  | inr within ↦ rw within (record { counted = c; frames = ground arith; bytes = ground arith })
]

enqueue-Counted : (r : Retained) (s : Stream) → Counted s → Counted (enqueue r s)
enqueue-Counted r s c = omega (arith, c, total-append s.buffer (slot_of r ∷ []))

on_event-IsBounded : (r : Retained) (s : Stream) → IsBounded s → IsBounded (on_event r s)
unfolding on_event
on_event-IsBounded r s v = elim (Bool-cases (is_ignored r s)) [
  | inl ignored ↦ rw ignored v
  | inr taken ↦ rw taken (
      evict-IsBounded (length (enqueue r s).buffer) (enqueue r s) (enqueue-Counted r s v.counted)
        (omega arith))
]

take_hole-IsBounded : (now : ℕ) (s : Stream) → IsBounded s → IsBounded (take_hole now s).1
unfolding take_hole
take_hole-IsBounded now s v = ground (arith, v.counted, v.frames, v.bytes)

take_next-IsBounded : (now : ℕ) (s : Stream) → IsBounded s → IsBounded (take_next now s).1
unfolding take_next
take_next-IsBounded now s v = ground (
  arith,
  v.counted,
  v.frames,
  v.bytes,
  without-Removed s.next s.buffer,
  take_hole-IsBounded now s v,
)

take_locked-IsBounded : (now : ℕ) (s : Stream) → IsBounded s → IsBounded (take_locked now s).1
unfolding take_locked
take_locked-IsBounded now s v =
    ground (arith, v.counted, v.frames, v.bytes, take_next-IsBounded now s v)

step-IsBounded : (e : Step) (s : Stream) → IsBounded s → IsBounded (step e s)
unfolding step
step-IsBounded (calling r) s v = on_event-IsBounded r s v
step-IsBounded (taking now) s v = take_locked-IsBounded now s v
step-IsBounded closing s v = unfold close in ground (arith, v.counted, v.frames, v.bytes)

-- Whatever arrives in whatever order, and however it is read, the frames that wait in a stream are
-- never more than its limit, their bytes are counted exactly and never above the limit: the loop
-- that drops the lowest frames always gets there.
pub run-IsBounded : (es : List Step) (s : Stream) → IsBounded s → IsBounded (run es s)
unfolding run
run-IsBounded [] s v = v
run-IsBounded (e ∷ es) s v = run-IsBounded es (step e s) (step-IsBounded e s v)
