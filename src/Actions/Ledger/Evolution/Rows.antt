-- ===== src/Actions/Ledger/Evolution/Rows.antt =====
-- How one call changes the row of a command.
use astrbot_ex.Prelude.{
  ℕ, String, ◌≡◌, ◌⊎◌, inl, inr, refl, sym, subst, ◌∙◌, Bool, true, false, Option, none, some, List,
  [], ◌∷◌, arith, ◌=?◌, =?_iff, if◌then◌else◌, ◌+◌,
}
use astrbot_ex.Prelude.Table.{Table, find}
use astrbot_ex.Prelude.Text.{sort}
use astrbot_ex.Actions.Error.{◌>>=◌}
use astrbot_ex.Actions.Status.{is_terminal, can_transition, eq_status}
use astrbot_ex.Actions.Ledger.Db.{OwnerBinding, Proof, CommandRow, Db, Budgets}
use astrbot_ex.Actions.Ledger.Admit.{prepare_admit, Prepared, admit_body, admit}
use astrbot_ex.Actions.Ledger.Report.{
  prepare_report, prepare_reconcile, prepare_ack, Report, report_body, report, reconcile_stop,
  reconcile_body, ack,
}
use astrbot_ex.Actions.Ledger.Recovery.{is_live, live_ids, recover_each, recover, done}
use astrbot_ex.Actions.Ledger.Calls.{Call, admits, reports, reconciles, acks, restarts, step, run}
use astrbot_ex.Actions.Ledger.Evolution.Restart.{
  SameCommand, Reviewed, mem-sort, mem-live_ids, recover_each_at,
}
use astrbot_ex.Actions.Ledger.Invariant.Writes
use astrbot_ex.Actions.Ledger.Invariant.Kept.{
  Consistent, transaction_keeps, admit_body_cases, report_body_cases, recover_body_cases,
}
use astrbot_ex.Actions.Ledger.Invariant.Runs.{step-Consistent, after_checks_keeps}

-- What may become of a row: it stays as it is, or a live row moves along `LEGAL_TRANSITIONS` to
-- another status and remains the row of the same command.
abbrev pub Evolves : CommandRow → Option CommandRow → Type 0
Evolves old none = ⊥
Evolves old (some new) =
    (new ≡ old)
    ⊎ ((is_terminal old.status ≡ false)
        × (can_transition old.status new.status ≡ true)
        × (eq_status old.status new.status ≡ false)
        × SameCommand old new)

-- the row that a status change writes, seen at the changed command or at another one
abbrev Moves : CommandRow → CommandRow → Type 0
Moves row new =
    (is_terminal row.status ≡ false)
    × (can_transition row.status new.status ≡ true)
    × (eq_status row.status new.status ≡ false)
    × SameCommand row new

moved-Evolves :
    (b : Bool) (row old new : CommandRow) (o : Option CommandRow)
    → o ≡ (if b then some new else some old)
    → (b ≡ true → row ≡ old)
    → Moves row new
    → Evolves old o
moved-Evolves true row old new o h same m = rw h (inr (subst (λ x. Moves x new) (same refl) m))
moved-Evolves false row old new o h same m = rw h (inl refl)

same_row :
    (k c : String) {row old : CommandRow} (t : Table CommandRow)
    → find k t ≡ some row
    → find c t ≡ some old
    → (k =? c) ≡ true
    → row ≡ old
same_row k c t found there here = cc ((=?_iff k c).0 here)

module _ (budgets : Budgets) (c : String) (old : CommandRow) (db : Db)
    (there : find c db.commands ≡ some old) where
  abbrev Good : Db → Type 0
  Good d = Evolves old (find c d.commands)

  unchanged : (d : Db) → d.commands ≡ db.commands → Good d
  unchanged d e = rw (e, there) (inl refl)

  admit-Evolves : (event_id : String) (p : Prepared) → Good (admit budgets event_id p db).1
  unfolding admit
  admit-Evolves event_id p =
      transaction_keeps Good (admit_body budgets event_id p) db
        (λ a db' h. elim (admit_body_cases budgets event_id p a db db' h) [
          | inl new ↦ ground (
            arith,
            there,
            (Writes.admit_new-Wrote budgets event_id p db db' a new).rows c,
            Writes.admit_new_fresh budgets event_id p db db' a new,
          )
          | inr same ↦ unchanged db' (rw same)
        ])
        (unchanged db refl)

  report-Evolves : (event_id : String) (r : Report) → Good (report budgets event_id r db).1
  unfolding report
  report-Evolves event_id r =
      transaction_keeps Good (report_body budgets event_id r) db
        (λ s db' h. elim (report_body_cases budgets event_id r s db db' h) [
          | inl (row, found, live, legal, moves, moved) ↦
              moved-Evolves (r.command_id =? c) row old
                (Writes.changed row r.status r.reason_code r.details (db.sequence + 1)) _
                (rw there at
                  ((Writes.advance-Wrote budgets event_id r row db db' s found moved).rows c))
                (same_row r.command_id c db.commands found there)
                (
                  live,
                  legal,
                  moves,
                  record { canonical = refl; owner = refl; generation = refl; task_id = refl },
                )
          | inr same ↦ unchanged db' (rw same)
        ])
        (unchanged db refl)

  reconcile-Evolves :
      (k : String) (binding : OwnerBinding) (p : Proof) → Good (reconcile_stop k binding p db).1
  unfolding reconcile_stop
  reconcile-Evolves k binding p =
      transaction_keeps Good (reconcile_body k binding p) db
        (λ s db' h. unchanged db' (Writes.reconcile_commands k binding p db db' s h))
        (unchanged db refl)

  ack-Evolves : (seq : ℕ) → Good (ack seq db).1
  unfolding ack
  ack-Evolves seq = unchanged (ack seq db).1 refl

  visited-Evolves :
      (new : CommandRow) → is_live old.status ≡ true → Reviewed old new → Evolves old (some new)
  unfolding is_terminal can_transition
  visited-Evolves new live reviewed = ground arith

  recover-Evolves : (fresh : String → String) → Consistent db → Good (recover budgets fresh db).1
  unfolding recover
  recover-Evolves fresh v =
      transaction_keeps Good
        (λ d. recover_each budgets fresh (sort (live_ids d.commands)) d >>= done) db
        (λ u db' h.
          elim (recover_each_at budgets fresh c (sort (live_ids db.commands)) old db db'
            (recover_body_cases budgets fresh db db' u (sort (live_ids db.commands)) h) there) [
              | inl (absent, kept) ↦ rw kept (inl refl)
              | inr (present, (new, found, reviewed)) ↦ rw found (
                  visited-Evolves new
                    (rw there at (
                      mem-live_ids c db.commands v.logged.distinct
                        (sym (mem-sort c (live_ids db.commands)) ∙ present)))
                    reviewed)
            ])
        (unchanged db refl)

  -- A call leaves a command's row as it is, or moves a live one along the legal transitions; it
  -- never removes the row, touches a terminal one or changes whose command it is.
  pub step-Evolves : (call : Call) → Consistent db → Good (step budgets call db)
  unfolding step
  step-Evolves (admits event_id command names binding task_id) v =
      after_checks_keeps Good (prepare_admit budgets command names binding task_id) _ db
        (λ p _. admit-Evolves event_id p) (unchanged db refl)
  step-Evolves (reports event_id k binding status reason payload evidence) v =
      after_checks_keeps Good (prepare_report budgets k binding status reason payload evidence) _ db
        (λ r _. report-Evolves event_id r) (unchanged db refl)
  step-Evolves (reconciles k binding evidence) v =
      after_checks_keeps Good (prepare_reconcile k binding evidence) _ db
        (λ p _. reconcile-Evolves k binding p) (unchanged db refl)
  step-Evolves (acks seq) v =
      after_checks_keeps Good (prepare_ack seq) _ db (λ n _. ack-Evolves n) (unchanged db refl)
  step-Evolves (restarts fresh) v = recover-Evolves fresh v

step_terminal :
    (budgets : Budgets) (call : Call) (c : String) (old : CommandRow) (db : Db)
    → Consistent db
    → find c db.commands ≡ some old
    → is_terminal old.status ≡ true
    → find c (step budgets call db).commands ≡ some old
step_terminal budgets call c old db v there terminal =
    still (find c (step budgets call db).commands) (step-Evolves budgets c old db there call v)
  where
    still : (o : Option CommandRow) → Evolves old o → o ≡ some old
    still none e = elim e [ ]
    still (some new) e = ground (arith, e)

-- A terminal command is immutable: whatever is called after, restarts included, its row stays as it
-- is, with its status, reason, details and event number.
pub run_terminal :
    (budgets : Budgets) (calls : List Call) (c : String) (old : CommandRow) (db : Db)
    → Consistent db
    → find c db.commands ≡ some old
    → is_terminal old.status ≡ true
    → find c (run budgets calls db).commands ≡ some old
unfolding run
run_terminal budgets [] c old db v there terminal = there
run_terminal budgets (call ∷ calls) c old db v there terminal =
    run_terminal budgets calls c old (step budgets call db) (step-Consistent budgets call db v)
      (step_terminal budgets call c old db v there terminal) terminal

step_known :
    (budgets : Budgets) (call : Call) (c : String) (old : CommandRow) (db : Db)
    → Consistent db
    → find c db.commands ≡ some old
    → (new : CommandRow) × (find c (step budgets call db).commands ≡ some new) × SameCommand old new
step_known budgets call c old db v there =
    still (find c (step budgets call db).commands) (step-Evolves budgets c old db there call v)
  where
    still :
        (o : Option CommandRow)
        → Evolves old o
        → (new : CommandRow) × (o ≡ some new) × SameCommand old new
    still none e = elim e [ ]
    still (some new) e = (new, refl, ground (arith, e))

pub run_known :
    (budgets : Budgets) (calls : List Call) (c : String) (old : CommandRow) (db : Db)
    → Consistent db
    → find c db.commands ≡ some old
    → (new : CommandRow) × (find c (run budgets calls db).commands ≡ some new) × SameCommand old new
unfolding run
run_known budgets [] c old db v there =
    (old, there, record { canonical = refl; owner = refl; generation = refl; task_id = refl })
run_known budgets (call ∷ calls) c old db v there =
    let (mid, found, same) = step_known budgets call c old db v there in
    let (new, last, same') =
      run_known budgets calls c mid (step budgets call db) (step-Consistent budgets call db v)
        found in
    (new, last, ground (arith, same, same'))
