-- ===== src/Actions/Ledger/Writer/Steps.antt =====
-- What a step of the writer's thread keeps (astrbot_ex/core/actions/ledger.py).
use astrbot_ex.Prelude.{
  ℕ, ◌≤◌, ◌≡◌, ◌⊎◌, inl, inr, refl, ap, ◌∙◌, Bool, true, false, List, [], ◌∷◌, ◌++◌, arith,
  Bool-cases,
}
use astrbot_ex.Actions.Ledger.Writer.{
  Item, job, stop, Stage, serving, operating, faulting, undoing, aborting, failing, ended, Fate,
  settled, canceled, lost, Writer, is_called_off, done_with, Turn, fine, sqlite_error, failed,
  interrupted, take_item, operate, roll_back, fail_item, work_on,
}
use astrbot_ex.Actions.Ledger.Writer.Fair.{
  waiting, taken, in_work, lost_count, may_lose, started, IsFair,
}
use astrbot_ex.Actions.Ledger.Writer.Order.{lost_count-append, gone_next, first_waiting, rest_of}

module _ (w : Writer) (v : IsFair w) where
  called_off-IsFair :
      (n : ℕ) (q : List Item)
      → w.stage ≡ serving
      → w.queue ≡ job n ∷ q
      → IsFair (record (done_with n canceled w) { queue = q })
  called_off-IsFair n q at is =
      let (short, marker, plain) = rest_of (job n) w q v is in
      let o : w.accepted ≡ (taken w.gone ++ []) ++ n ∷ waiting q = rw (at, is) at v.ordered in
      let none_lost : lost_count w.gone ≤ 0 = rw at at v.losses in
      record {
        ordered = rw at (
            o
            ∙ first_waiting (taken w.gone) n (waiting q)
            ∙ gone_next w.gone n canceled (waiting q));
        bounded = short;
        marker = marker;
        before_close = plain;
        faulted = λ e. cc (at, e);
        losses = rw at (omega (arith, lost_count-append w.gone n canceled, none_lost));
        finished = λ e. cc (at, e);
      }

  operating-IsFair :
      (n : ℕ) (q : List Item)
      → w.stage ≡ serving
      → w.queue ≡ job n ∷ q
      → IsFair (record w { queue = q; stage = operating n })
  operating-IsFair n q at is =
      let (short, marker, plain) = rest_of (job n) w q v is in
      let o : w.accepted ≡ (taken w.gone ++ []) ++ n ∷ waiting q = rw (at, is) at v.ordered in
      record {
        ordered = o ∙ first_waiting (taken w.gone) n (waiting q);
        bounded = short;
        marker = marker;
        before_close = plain;
        faulted = λ e. cc;
        losses = rw at at v.losses;
        finished = λ e. cc;
      }

  stopped-IsFair :
      (q : List Item)
      → w.stage ≡ serving
      → w.queue ≡ stop ∷ q
      → IsFair (record w { queue = q; stage = ended })
  stopped-IsFair q at is =
      let (short, marker, plain) = rest_of stop w q v is in
      let empty : q ≡ [] = rw is at v.marker in
      let none_lost : lost_count w.gone ≤ 0 = rw at at v.losses in
      record {
        ordered = rw (at, is) at v.ordered;
        bounded = short;
        marker = marker;
        before_close = plain;
        faulted = λ e. cc;
        losses = omega (arith, none_lost);
        finished = λ e. (rw empty refl, closed_at_stop (Bool-cases w.closed));
      }
    where
      closed_at_stop : (w.closed ≡ true) ⊎ (w.closed ≡ false) → (w.fault ≡ true) ⊎ (w.closed ≡ true)
      closed_at_stop (inl c) = inr c
      closed_at_stop (inr c) = elim (rw is at (v.before_close c)) [ ]

  take_item-IsFair :
      (i : Item) (q : List Item) → w.stage ≡ serving → w.queue ≡ i ∷ q → IsFair (take_item i q w)
  unfolding take_item
  take_item-IsFair stop q at is = stopped-IsFair q at is
  take_item-IsFair (job n) q at is = elim (Bool-cases (is_called_off n w)) [
    | inl e ↦ rw e (called_off-IsFair n q at is)
    | inr e ↦ rw e (operating-IsFair n q at is)
  ]

  -- an operation that is over, on the way to a stage that has none
  over-IsFair :
      (n : ℕ) (f : Fate) (s : Stage)
      → in_work w.stage ≡ n ∷ []
      → in_work s ≡ []
      → lost_count w.gone ≤ 0
      → lost_count ((n, f) ∷ []) ≤ may_lose s w.fault
      → (s ≡ failing → w.fault ≡ true)
      → (s ≡ ended → ⊥)
      → IsFair (record (done_with n f w) { stage = s })
  over-IsFair n f s at idle none_lost may fine_after going =
      let o : w.accepted ≡ (taken w.gone ++ n ∷ []) ++ waiting w.queue = rw at at v.ordered in
      record {
        ordered = rw idle (o ∙ gone_next w.gone n f (waiting w.queue));
        bounded = v.bounded;
        marker = v.marker;
        before_close = v.before_close;
        faulted = fine_after;
        losses = omega (arith, lost_count-append w.gone n f, none_lost, may);
        finished = λ e. absurd (going e);
      }

  abandoned-IsFair :
      (n : ℕ)
      → in_work w.stage ≡ n ∷ []
      → lost_count w.gone ≤ 0
      → IsFair (record (done_with n lost w) { stage = aborting })
  abandoned-IsFair n at none_lost =
      over-IsFair n lost aborting at refl none_lost (omega arith) (λ e. cc) (λ e. cc)

  -- a rollback that comes next
  rolling-IsFair :
      (n : ℕ) (s : Stage) (b c : Bool)
      → in_work w.stage ≡ n ∷ []
      → in_work s ≡ n ∷ []
      → lost_count w.gone ≤ 0
      → (s ≡ failing → ⊥)
      → (s ≡ ended → ⊥)
      → IsFair (record w { fault = b; admission_blocked = c; stage = s })
  rolling-IsFair n s b c at same none_lost later going = record {
    ordered = rw same (rw at at v.ordered);
    bounded = v.bounded;
    marker = v.marker;
    before_close = v.before_close;
    faulted = λ e. absurd (later e);
    losses = omega (arith, none_lost);
    finished = λ e. absurd (going e);
  }

  operate-IsFair : (n : ℕ) (t : Turn) → w.stage ≡ operating n → IsFair (operate n t w)
  unfolding operate
  operate-IsFair n fine at =
      over-IsFair n settled serving (rw at refl) refl (rw at at v.losses) (omega arith) (λ e. cc)
        (λ e. cc)
  operate-IsFair n sqlite_error at =
      rolling-IsFair n (faulting n) true true (rw at refl) refl (rw at at v.losses) (λ e. cc)
        (λ e. cc)
  operate-IsFair n failed at =
      rolling-IsFair n (undoing n) w.fault w.admission_blocked (rw at refl) refl (rw at at v.losses)
        (λ e. cc) (λ e. cc)
  operate-IsFair n interrupted at = abandoned-IsFair n (rw at refl) (rw at at v.losses)

  roll_back-IsFair :
      (n : ℕ) (t : Turn) (next : Stage)
      → in_work w.stage ≡ n ∷ []
      → lost_count w.gone ≤ 0
      → (next ≡ serving) ⊎ (next ≡ aborting)
      → IsFair (roll_back n t next w)
  unfolding roll_back
  roll_back-IsFair n fine next at none_lost (inl to) =
      over-IsFair n settled next at (rw to refl) none_lost (omega arith) (λ e. cc (to, e))
        (λ e. cc (to, e))
  roll_back-IsFair n fine next at none_lost (inr to) =
      over-IsFair n settled next at (rw to refl) none_lost (omega arith) (λ e. cc (to, e))
        (λ e. cc (to, e))
  roll_back-IsFair n sqlite_error next at none_lost to = abandoned-IsFair n at none_lost
  roll_back-IsFair n failed next at none_lost to = abandoned-IsFair n at none_lost
  roll_back-IsFair n interrupted next at none_lost to = abandoned-IsFair n at none_lost

  fail_job-IsFair :
      (n : ℕ) (f : Fate) (q : List Item)
      → w.stage ≡ failing
      → w.queue ≡ job n ∷ q
      → lost_count ((n, f) ∷ []) ≤ 0
      → IsFair (record (done_with n f w) { queue = q })
  fail_job-IsFair n f q at is none =
      let (short, marker, plain) = rest_of (job n) w q v is in
      let o : w.accepted ≡ (taken w.gone ++ []) ++ n ∷ waiting q = rw (at, is) at v.ordered in
      record {
        ordered =
            rw at
              (o ∙ first_waiting (taken w.gone) n (waiting q) ∙ gone_next w.gone n f (waiting q));
        bounded = short;
        marker = marker;
        before_close = plain;
        faulted = v.faulted;
        losses = omega (arith, lost_count-append w.gone n f, none, v.losses);
        finished = λ e. cc (at, e);
      }

  fail_item-IsFair :
      (i : Item) (q : List Item) → w.stage ≡ failing → w.queue ≡ i ∷ q → IsFair (fail_item i q w)
  unfolding fail_item
  fail_item-IsFair (job n) q at is = elim (Bool-cases (is_called_off n w)) [
    | inl e ↦ rw e (fail_job-IsFair n canceled q at is (omega arith))
    | inr e ↦ rw e (fail_job-IsFair n settled q at is (omega arith))
  ]
  fail_item-IsFair stop q at is =
      let (short, marker, plain) = rest_of stop w q v is in
      record {
        ordered = v.ordered ∙ ap (λ l. started w ++ waiting l) is;
        bounded = short;
        marker = marker;
        before_close = plain;
        faulted = v.faulted;
        losses = v.losses;
        finished = λ e. cc (at, e);
      }

  end-IsFair : w.stage ≡ failing → w.queue ≡ [] → IsFair (record w { stage = ended })
  end-IsFair at is =
      let one : lost_count w.gone ≤ 1 = rw at at v.losses in
      record {
        ordered = rw at at v.ordered;
        bounded = v.bounded;
        marker = v.marker;
        before_close = v.before_close;
        faulted = λ e. cc;
        losses = rw (v.faulted at) one;
        finished = λ e. (rw is refl, inl (v.faulted at));
      }

  abort-IsFair : w.stage ≡ aborting → IsFair (record w { fault = true; stage = failing })
  abort-IsFair at = record {
    ordered = rw at at v.ordered;
    bounded = v.bounded;
    marker = v.marker;
    before_close = v.before_close;
    faulted = λ e. refl;
    losses = rw at at v.losses;
    finished = λ e. cc;
  }

  pub work_on-IsFair :
      (s : Stage) (t : Turn) (q : List Item) → w.stage ≡ s → w.queue ≡ q → IsFair (work_on s t q w)
  work_on-IsFair serving t [] at is = v
  work_on-IsFair serving t (i ∷ q) at is = take_item-IsFair i q at is
  work_on-IsFair (operating n) t q at is = operate-IsFair n t at
  work_on-IsFair (faulting n) t q at is =
      roll_back-IsFair n t aborting (rw at refl) (rw at at v.losses) (inr refl)
  work_on-IsFair (undoing n) t q at is =
      roll_back-IsFair n t serving (rw at refl) (rw at at v.losses) (inl refl)
  work_on-IsFair aborting t q at is = abort-IsFair at
  work_on-IsFair failing t [] at is = end-IsFair at is
  work_on-IsFair failing t (i ∷ q) at is = fail_item-IsFair i q at is
  work_on-IsFair ended t q at is = v
