-- ===== src/Events/Stream/Order.antt =====
-- The order of release of a stream whose callbacks come in the order of the sequences
-- (astrbot_ex/core/event_stream.py).
use astrbot_ex.Prelude.{
  ℕ, ◌+◌, ◌-◌, ◌≤◌, ◌<◌, String, ◌≡◌, ◌⊎◌, inl, inr, refl, ◌∙◌, true, Option, none, some, List, [],
  ◌∷◌, arith, length,
}
use astrbot_ex.Events.Bus.{queue_overflow}
use astrbot_ex.Events.Stream.{
  Slot, Stream, open_stream, slot_at, lowest, on_event, Frame, gap, event, control, take_hole,
  take_next, take_locked, Step, calling, taking, closing, step, run,
}
use astrbot_ex.Events.Stream.Arrival.{
  Consecutive, InOrder, Same, shorter-InOrder, first_slot, without_first, on_event-InOrder,
}

-- what a reader gets, against the next sequence before and after
abbrev pub Taken : ℕ → Stream → Stream → Option Frame → Type 0
Taken h s s' none = (s' ≡ s) × (s.next ≡ h + 1)
Taken h s s' (some (event r)) = (r.log.sequence ≡ s.next) × (s'.next ≡ s.next + 1)
Taken h s s' (some (control c)) =
    (c.reason ≡ queue_overflow) × (s.next < s'.next) × (c.dropped_count ≡ some (s'.next - s.next))

take_none :
    (now : ℕ) (s : Stream)
    → s.controls ≡ []
    → s.buffer ≡ []
    → s.dropped_through < s.next
    → take_locked now s ≡ (none, s)
unfolding take_locked take_next take_hole slot_at lowest
take_none now s c was behind = ground arith

take_first :
    (now : ℕ) (t : Slot) (ts : List Slot) (s : Stream)
    → s.controls ≡ []
    → s.buffer ≡ t ∷ ts
    → t.sequence ≡ s.next
    → s.dropped_through < s.next
    → ((take_locked now s).0 ≡ some (event t.frame))
      × ((take_locked now s).1.buffer ≡ ts)
      × Same s (take_locked now s).1
      × ((take_locked now s).1.dropped_through ≡ s.dropped_through)
      × ((take_locked now s).1.next ≡ s.next + 1)
unfolding take_locked take_next
take_first now t ts s c was e behind =
    ground (arith, first_slot s.next t ts e, without_first s.next t ts e)

abbrev skipped : Stream → Stream
skipped s = record s { next = s.dropped_through + 1 }

take_gap :
    (now : ℕ) (s : Stream)
    → s.controls ≡ []
    → s.next ≤ s.dropped_through
    → take_locked now s
      ≡ (some (control (gap true (some (s.dropped_through - s.next + 1)) (skipped s))), skipped s)
unfolding take_locked
take_gap now s c behind = ground arith

skipped-InOrder :
    (h : ℕ) (s : Stream) → s.next ≤ s.dropped_through → InOrder h s → InOrder h (skipped s)
skipped-InOrder h s behind v = record {
  live = v.live;
  head = v.head;
  controls = v.controls;
  short = v.short;
  slots = v.slots;
  dropped = v.dropped;
  exact = ground (arith, v.exact, v.dropped);
}

module _ (h now : ℕ) (s : Stream) (v : InOrder h s) where
  take-InOrder :
      s.dropped_through < s.next
      → InOrder h (take_locked now s).1 × Taken h s (take_locked now s).1 (take_locked now s).0
  take-InOrder ahead = at s.buffer refl
    where
      at :
          (b : List Slot)
          → s.buffer ≡ b
          → InOrder h (take_locked now s).1 × Taken h s (take_locked now s).1 (take_locked now s).0
      at [] was =
          let exact = rw was at v.exact in
          rw (take_none now s v.controls was ahead) (v, (refl, ground (arith, exact, ahead)))
      at (t ∷ ts) was =
          let slots : Consecutive (h + 1 - length (t ∷ ts)) (t ∷ ts) = rw was at v.slots in
          let short : length (t ∷ ts) ≤ h = rw was at v.short in
          let exact = rw was at v.exact in
          let dropped = rw was at v.dropped in
          let here : h + 1 - length (t ∷ ts) ≡ s.next = ground (arith, exact, short, ahead) in
          let (got, is, same, through, next) =
            take_first now t ts s v.controls was (slots.0 ∙ here) ahead in
          (
            shorter-InOrder h s (take_locked now s).1 t ts v was is same
                (ground (arith, through, short, dropped))
                (ground (arith, through, next, short, dropped, exact, here)),
            rw got (slots.1 ∙ here, next),
          )

  take_gap-InOrder :
      s.next ≤ s.dropped_through
      → InOrder h (take_locked now s).1 × Taken h s (take_locked now s).1 (take_locked now s).0
  take_gap-InOrder behind =
      rw (take_gap now s v.controls behind)
        (skipped-InOrder h s behind v, (refl, ground arith, ground (arith, behind)))

  -- Reading a stream whose callbacks came in order, the last one with sequence `h`, gives exactly the
  -- next sequence: its event, or one overflow frame that counts exactly the sequences up to the next
  -- one kept, or nothing where the reader is up to date. No event is given twice, out of order or
  -- lost without a count, and the stream stays in order.
  pub take_exact :
      InOrder h (take_locked now s).1 × Taken h s (take_locked now s).1 (take_locked now s).0
  take_exact = elim (Nat-cases s.next s.dropped_through) [
    | inl behind ↦ take_gap-InOrder behind
    | inr ahead ↦ take-InOrder ahead
  ]
    where
      Nat-cases : (m n : ℕ) → (m ≤ n) ⊎ (n < m)
      Nat-cases m n = ground arith

-- the steps of a stream that is not closed, with the callbacks in the order of the sequences
abbrev pub InSequence : ℕ → List Step → Type 0
InSequence h [] = Unit
InSequence h (calling r ∷ es) = (r.log.sequence ≡ h + 1) × InSequence (h + 1) es
InSequence h (taking now ∷ es) = InSequence h es
InSequence h (closing ∷ es) = ⊥

abbrev pub last_called : ℕ → List Step → ℕ
last_called h [] = h
last_called h (calling r ∷ es) = last_called (h + 1) es
last_called h (_ ∷ es) = last_called h es

run_keeps :
    (es : List Step) (h : ℕ) (s : Stream)
    → InSequence h es
    → InOrder h s
    → InOrder (last_called h es) (run es s)
unfolding run step
run_keeps [] h s q v = v
run_keeps (calling r ∷ es) h s q v =
    run_keeps es (h + 1) (on_event r s) q.1 (on_event-InOrder h r s q.0 v)
run_keeps (taking now ∷ es) h s q v =
    run_keeps es h (take_locked now s).1 q (take_exact h now s v).0
run_keeps (closing ∷ es) h s q v = elim q [ ]

-- A new stream whose callbacks come in the order of the sequences, read at any times between them, is
-- in order: what waits are the last events up to the last callback, and only events that were dropped
-- lie between the next sequence to read and them, however small its limits are.
pub run-InOrder :
    (stream_id : String) (head max_frames max_bytes grace : ℕ) (es : List Step)
    → InSequence head es
    → InOrder
        (last_called head es)
        (run es (open_stream stream_id head [] max_frames max_bytes grace))
run-InOrder stream_id head max_frames max_bytes grace es q =
    run_keeps es head (open_stream stream_id head [] max_frames max_bytes grace) q (record {
      live = refl;
      head = omega arith;
      controls = refl;
      short = omega arith;
      slots = tt;
      dropped = omega arith;
      exact = inl (omega arith);
    })
