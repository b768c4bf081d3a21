-- ===== src/Events/Stream/Arrival.antt =====
-- A stream whose callbacks come in the order of the sequences: what its buffer is
-- (astrbot_ex/core/event_stream.py).
use astrbot_ex.Prelude.{
  ℕ, zero, suc, ◌+◌, ◌-◌, ◌≤◌, ◌<◌, ◌≡◌, ◌⊎◌, inl, inr, refl, subst, ◌∙◌, false, none, some, List,
  [], ◌∷◌, ◌++◌, arith, Bool-cases, length, length-append, max,
}
use astrbot_ex.Events.Bus.{Retained}
use astrbot_ex.Events.Stream.{
  Slot, Stream, slot_at, without, lowest, is_over, drop_lowest, evict, slot_of, enqueue, is_ignored,
  on_event,
}

-- slots with consecutive sequences from `n`, each with the event of that sequence
abbrev pub Consecutive : ℕ → List Slot → Type 0
Consecutive n [] = Unit
Consecutive n (s ∷ ss) = (s.sequence ≡ n) × (s.frame.log.sequence ≡ n) × Consecutive (n + 1) ss

-- After the callbacks up to sequence `h`, in order: the buffer ends at `h`, and what is between the
-- next sequence and the buffer was dropped.
pub record InOrder (h : ℕ) (s : Stream) : Type 0 where
  pub live : s.closed ≡ false
  pub head : s.head ≤ h
  pub controls : s.controls ≡ []
  pub short : length s.buffer ≤ h
  pub slots : Consecutive (h + 1 - length s.buffer) s.buffer
  pub dropped : s.dropped_through + length s.buffer ≤ h
  pub exact :
      (s.next + length s.buffer ≡ h + 1)
      ⊎ ((s.next ≤ s.dropped_through) × (s.dropped_through + length s.buffer ≡ h))

Consecutive-append :
    (n : ℕ) (ss : List Slot) (t : Slot)
    → Consecutive n ss
    → t.sequence ≡ n + length ss
    → t.frame.log.sequence ≡ n + length ss
    → Consecutive n (ss ++ t ∷ [])
Consecutive-append n [] t c e f = (omega arith, omega arith, tt)
Consecutive-append n (s ∷ ss) t c e f =
    (c.0, c.1, Consecutive-append (n + 1) ss t c.2 (omega arith) (omega arith))

absent_above :
    (n m : ℕ) (ss : List Slot) → Consecutive n ss → n + length ss ≤ m → slot_at m ss ≡ none
unfolding slot_at
absent_above n m [] c h = refl
absent_above n m (s ∷ ss) c h = ground (arith, absent_above (n + 1) m ss)

absent_below : (n m : ℕ) (ss : List Slot) → Consecutive n ss → m < n → slot_at m ss ≡ none
unfolding slot_at
absent_below n m [] c h = refl
absent_below n m (s ∷ ss) c h = ground (arith, absent_below (n + 1) m ss)

lowest-Consecutive :
    (n : ℕ) (s : Slot) (ss : List Slot) → Consecutive n (s ∷ ss) → lowest (s ∷ ss) ≡ some n
unfolding lowest
lowest-Consecutive n s [] c = ground arith
lowest-Consecutive n s (t ∷ ss) c = ground (arith, lowest-Consecutive (n + 1) t ss c.2)

pub first_slot : (n : ℕ) (s : Slot) (ss : List Slot) → s.sequence ≡ n → slot_at n (s ∷ ss) ≡ some s
unfolding slot_at
first_slot n s ss e = ground arith

pub without_first : (n : ℕ) (s : Slot) (ss : List Slot) → s.sequence ≡ n → without n (s ∷ ss) ≡ ss
unfolding without
without_first n s ss e = ground arith

enqueue-InOrder :
    (h : ℕ) (r : Retained) (s : Stream)
    → r.log.sequence ≡ h + 1
    → InOrder h s
    → InOrder (h + 1) (enqueue r s)
enqueue-InOrder h r s e v =
    let longer = length-append s.buffer (slot_of r ∷ []) in
    record {
      live = v.live;
      head = omega (arith, v.head);
      controls = v.controls;
      short = omega (arith, longer, v.short);
      slots =
          subst (λ n. Consecutive n (enqueue r s).buffer) (omega (arith, longer))
            (Consecutive-append (h + 1 - length s.buffer) s.buffer (slot_of r) v.slots
              (omega (arith, e, v.short)) (omega (arith, e, v.short)));
      dropped = omega (arith, longer, v.dropped);
      exact = ground (arith, longer, v.exact);
    }

tail_slots :
    (h : ℕ) (t : Slot) (ts : List Slot)
    → Consecutive (h + 1 - length (t ∷ ts)) (t ∷ ts)
    → length (t ∷ ts) ≤ h
    → Consecutive (h + 1 - length ts) ts
tail_slots h t ts c short = subst (λ n. Consecutive n ts) (omega (arith, short)) c.2

-- what two states of a stream share
abbrev pub Same : Stream → Stream → Type 0
Same s s' = (s'.closed ≡ s.closed) × (s'.head ≡ s.head) × (s'.controls ≡ s.controls)

-- The first frame leaves the buffer, released or dropped.
pub shorter-InOrder :
    (h : ℕ) (s s' : Stream) (t : Slot) (ts : List Slot)
    → InOrder h s
    → s.buffer ≡ t ∷ ts
    → s'.buffer ≡ ts
    → Same s s'
    → s'.dropped_through + length ts ≤ h
    → (s'.next + length ts ≡ h + 1)
      ⊎ ((s'.next ≤ s'.dropped_through) × (s'.dropped_through + length ts ≡ h))
    → InOrder h s'
shorter-InOrder h s s' t ts v was is same dropped exact =
    let short : length (t ∷ ts) ≤ h = rw was at v.short in
    record {
      live = same.0 ∙ v.live;
      head = omega (arith, same.1, v.head);
      controls = same.2 ∙ v.controls;
      short = rw is (omega (arith, short));
      slots = rw is (tail_slots h t ts (rw was at v.slots) short);
      dropped = rw is dropped;
      exact = rw is exact;
    }

drop_first :
    (n : ℕ) (t : Slot) (ts : List Slot) (s : Stream)
    → s.buffer ≡ t ∷ ts
    → t.sequence ≡ n
    → lowest (t ∷ ts) ≡ some n
    → ((drop_lowest s).buffer ≡ ts)
      × Same s (drop_lowest s)
      × ((drop_lowest s).dropped_through ≡ max s.dropped_through n)
      × ((drop_lowest s).next ≡ s.next)
unfolding drop_lowest
drop_first n t ts s was e low = ground (arith, without_first n t ts)

drop_none : (s : Stream) → s.buffer ≡ [] → drop_lowest s ≡ s
unfolding drop_lowest lowest
drop_none s was = ground arith

drop_lowest-InOrder : (h : ℕ) (s : Stream) → InOrder h s → InOrder h (drop_lowest s)
drop_lowest-InOrder h s v = at s.buffer refl
  where
    at : (b : List Slot) → s.buffer ≡ b → InOrder h (drop_lowest s)
    at [] was = rw (drop_none s was) v
    at (t ∷ ts) was =
        let slots : Consecutive (h + 1 - length (t ∷ ts)) (t ∷ ts) = rw was at v.slots in
        let short : length (t ∷ ts) ≤ h = rw was at v.short in
        let exact = rw was at v.exact in
        let dropped = rw was at v.dropped in
        let (is, same, through, next) =
          drop_first (h + 1 - length (t ∷ ts)) t ts s was slots.0
            (lowest-Consecutive (h + 1 - length (t ∷ ts)) t ts slots) in
        shorter-InOrder h s (drop_lowest s) t ts v was is same
          (ground (arith, through, short, dropped))
          (ground (arith, through, next, short, dropped, exact))

evict-InOrder : (fuel h : ℕ) (s : Stream) → InOrder h s → InOrder h (evict fuel s)
unfolding evict
evict-InOrder zero h s v = v
evict-InOrder (suc fuel) h s v = elim (Bool-cases (is_over s)) [
  | inl over ↦ rw over (evict-InOrder fuel h (drop_lowest s) (drop_lowest-InOrder h s v))
  | inr within ↦ rw within v
]

is_new :
    (h : ℕ) (r : Retained) (s : Stream)
    → r.log.sequence ≡ h + 1
    → InOrder h s
    → is_ignored r s ≡ false
is_new h r s e v = ground (
  arith,
  v.live,
  v.head,
  absent_above (h + 1 - length s.buffer) (h + 1) s.buffer v.slots (omega (arith, v.short)),
)

-- A callback with the next sequence keeps the stream in order.
pub on_event-InOrder :
    (h : ℕ) (r : Retained) (s : Stream)
    → r.log.sequence ≡ h + 1
    → InOrder h s
    → InOrder (h + 1) (on_event r s)
unfolding on_event
on_event-InOrder h r s e v =
    rw (is_new h r s e v) (
      evict-InOrder (length (enqueue r s).buffer) (h + 1) (enqueue r s) (enqueue-InOrder h r s e v))
