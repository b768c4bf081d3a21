-- ===== src/Actions/Ledger/Reservations.antt =====
-- When a reservation ends, and what a restart does (astrbot_ex/core/actions/ledger.py).
use astrbot_ex.Prelude.{
  ℕ, ◌+◌, String, ◌≡◌, ◌⊎◌, inl, inr, refl, true, Option, none, some, List, [], ◌∷◌, arith, ◌=?◌,
  if◌then◌else◌,
}
use astrbot_ex.Prelude.Table.{Table, find, put, find-put}
use astrbot_ex.Prelude.Text.{sort}
use astrbot_ex.Actions.Error.{ok, ◌>>=◌}
use astrbot_ex.Actions.Status.{
  Status, admitted, rejected, accepted, running, succeeded, failed, canceled, timed_out, unknown,
}
use astrbot_ex.Actions.Ledger.Db.{OwnerBinding, Proof, CommandRow, Db, Budgets, insert}
use astrbot_ex.Actions.Ledger.Admit.{prepare_admit, Prepared, admit_body, admit, reserve}
use astrbot_ex.Actions.Ledger.Report.{
  Report, frees, prepare_report, report_body, report, prepare_reconcile, prepare_ack,
  reconcile_body, reconcile_stop, ack,
}
use astrbot_ex.Actions.Ledger.Recovery.{live_ids, recover_each, recover, done}
use astrbot_ex.Actions.Ledger.Tables.{find-release, without_holder}
use astrbot_ex.Actions.Ledger.Calls.{Call, admits, reports, reconciles, acks, restarts, step}
use astrbot_ex.Actions.Ledger.Evolution.Restart.{recover_each_kept}
use astrbot_ex.Actions.Ledger.Invariant.Writes
use astrbot_ex.Actions.Ledger.Invariant.Holds.{proof_at, find-freed}
use astrbot_ex.Actions.Ledger.Invariant.Kept.{
  Consistent, transaction_keeps, admit_body_cases, report_body_cases, recover_body_cases,
}
use astrbot_ex.Actions.Ledger.Invariant.Runs.{after_checks_keeps}

-- The command has ended so that it needs its resources no more: rejected, succeeded, canceled, or
-- with a committed stop proof. A failure, a timeout or an unknown end without a proof is not enough.
abbrev pub Ended : Option CommandRow → Option Proof → Type 0
Ended row (some p) = Unit
Ended (some row) none = (row.status ≡ rejected) ⊎ (row.status ≡ succeeded) ⊎ (row.status ≡ canceled)
Ended none none = ⊥

-- what the release without a proof means
frees_without_proof :
    (s : Status) → frees s none ≡ true → (s ≡ rejected) ⊎ (s ≡ succeeded) ⊎ (s ≡ canceled)
frees_without_proof rejected e = inl refl
frees_without_proof succeeded e = inr (inl refl)
frees_without_proof canceled e = inr (inr refl)
frees_without_proof admitted e = absurd (cc)
frees_without_proof accepted e = absurd (cc)
frees_without_proof running e = absurd (cc)
frees_without_proof failed e = absurd (cc)
frees_without_proof timed_out e = absurd (cc)
frees_without_proof unknown e = absurd (cc)

find-reserve_held :
    (c n h : String) (names : List String) (t t' : Table String)
    → reserve c names t ≡ ok t'
    → find n t ≡ some h
    → find n t' ≡ some h
unfolding reserve insert
find-reserve_held c n h [] t t' r held = ground arith
find-reserve_held c n h (x ∷ xs) t t' r held =
    ground (arith, find-put x n c t, find-reserve_held c n h xs (put x c t) t')

module _ (budgets : Budgets) (n c : String) (db : Db) (held : find n db.resources ≡ some c)
    (v : Consistent db) where
  abbrev Kept : Db → Type 0
  Kept d = (find n d.resources ≡ some c) ⊎ Ended (find c d.commands) (find c d.stop_evidence)

  same_resources : (d : Db) → d.resources ≡ db.resources → Kept d
  same_resources d e = inl (rw e held)

  admit-Kept : (event_id : String) (p : Prepared) → Kept (admit budgets event_id p db).1
  unfolding admit
  admit-Kept event_id p =
      transaction_keeps Kept (admit_body budgets event_id p) db
        (λ a db' h. elim (admit_body_cases budgets event_id p a db db' h) [
          | inl new ↦ inl (
              find-reserve_held p.command_id n c p.names db.resources db'.resources
                (Writes.admit_new_resources budgets event_id p db db' a new) held)
          | inr same ↦ same_resources db' (rw same)
        ])
        (same_resources db refl)

  advanced-Kept :
      (r : Report) (row : CommandRow) (d : Db)
      → row.status ≡ r.status
      → find r.command_id d.commands ≡ some row
      → find r.command_id d.stop_evidence
        ≡ proof_at r.command_id r.proof r.command_id (find r.command_id db.stop_evidence)
      → find n d.resources ≡ (
          if frees r.status r.proof
          then without_holder r.command_id (find n db.resources)
          else find n db.resources)
      → Kept d
  advanced-Kept r row d status there proven freed =
      ground (arith, held, frees_without_proof r.status)

  report-Kept : (event_id : String) (r : Report) → Kept (report budgets event_id r db).1
  unfolding report
  report-Kept event_id r =
      transaction_keeps Kept (report_body budgets event_id r) db
        (λ s db' h. elim (report_body_cases budgets event_id r s db db' h) [
          | inl (row, found, live, legal, moves, moved) ↦
              let w = Writes.advance-Wrote budgets event_id r row db db' s found moved in
              advanced-Kept r
                (Writes.changed row r.status r.reason_code r.details (db.sequence + 1)) db' refl
                (ground (arith, w.rows r.command_id))
                (Writes.advance_evidence budgets event_id r row db db' s found moved r.command_id)
                (rw (Writes.advance_resources budgets event_id r row db db' s found moved) (
                  find-freed r.command_id n (frees r.status r.proof) db.resources
                    v.reserved.names_distinct))
          | inr same ↦ same_resources db' (rw same)
        ])
        (same_resources db refl)

  reconciled-Kept :
      (k : String) (p : Proof) (d : Db)
      → find c d.stop_evidence ≡ (if k =? c then some p else find c db.stop_evidence)
      → find n d.resources ≡ without_holder k (find n db.resources)
      → Kept d
  reconciled-Kept k p d proven freed = ground (arith, held)

  reconcile-Kept :
      (k : String) (binding : OwnerBinding) (p : Proof) → Kept (reconcile_stop k binding p db).1
  unfolding reconcile_stop
  reconcile-Kept k binding p =
      transaction_keeps Kept (reconcile_body k binding p) db
        (λ s db' h. reconciled-Kept k p db' (Writes.reconcile_evidence k binding p db db' s h c) (
          rw (Writes.reconcile_resources k binding p db db' s h)
            (find-release k n db.resources v.reserved.names_distinct)))
        (same_resources db refl)

  recover-Kept : (fresh : String → String) → Kept (recover budgets fresh db).1
  unfolding recover
  recover-Kept fresh =
      transaction_keeps Kept
        (λ d. recover_each budgets fresh (sort (live_ids d.commands)) d >>= done) db
        (λ u db' h.
          same_resources db'
            (recover_each_kept budgets fresh (sort (live_ids db.commands)) db db'
              (recover_body_cases budgets fresh db db' u (sort (live_ids db.commands)) h)).0)
        (same_resources db refl)

  ack-Kept : (seq : ℕ) → Kept (ack seq db).1
  unfolding ack
  ack-Kept seq = inl held

  -- A resource that a command holds stays with it through any call, restarts included, until the
  -- command is rejected, has succeeded, is canceled or has a committed stop proof: no other call and
  -- no other command takes it away, and a failure, a timeout or an unknown end without a proof does
  -- not release it.
  pub step-Kept : (call : Call) → Kept (step budgets call db)
  unfolding step
  step-Kept (admits event_id command names binding task_id) =
      after_checks_keeps Kept (prepare_admit budgets command names binding task_id) _ db
        (λ p _. admit-Kept event_id p) (same_resources db refl)
  step-Kept (reports event_id k binding status reason payload evidence) =
      after_checks_keeps Kept (prepare_report budgets k binding status reason payload evidence) _ db
        (λ r _. report-Kept event_id r) (same_resources db refl)
  step-Kept (reconciles k binding evidence) =
      after_checks_keeps Kept (prepare_reconcile k binding evidence) _ db
        (λ p _. reconcile-Kept k binding p) (same_resources db refl)
  step-Kept (acks seq) =
      after_checks_keeps Kept (prepare_ack seq) _ db (λ n _. ack-Kept n) (same_resources db refl)
  step-Kept (restarts fresh) = recover-Kept fresh
