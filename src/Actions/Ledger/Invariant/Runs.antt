-- ===== src/Actions/Ledger/Invariant/Runs.antt =====
-- The invariant over every sequence of calls of the ledger, and what follows for reservations.
use astrbot_ex.Prelude.{String, ◌≡◌, refl, Option, List, [], ◌∷◌, arith}
use astrbot_ex.Actions.Error.{Result, ok, raise}
use astrbot_ex.Actions.Status.{Status}
use astrbot_ex.Actions.Ledger.Db.{OwnerBinding, StopEvidence, Details, Proof, Db, empty_db, Budgets}
use astrbot_ex.Actions.Ledger.Admit.{prepare_admit}
use astrbot_ex.Actions.Ledger.Report.{
  Report, prepare_report, prepare_reconcile, prepare_ack, needs_proof, read_proof,
}
use astrbot_ex.Actions.Ledger.Calls.{
  Call, admits, reports, reconciles, acks, restarts, after_checks, step, run,
}
use astrbot_ex.Actions.Ledger.Invariant.Holds.{Fits}
use astrbot_ex.Actions.Ledger.Invariant.Kept.{
  Consistent, empty-Consistent, admit-Consistent, report-Consistent, reconcile-Consistent,
  ack-Consistent, recover-Consistent,
}

read_proof-Fits :
    (c : String) (status : Status) (evidence : Option StopEvidence) (proof : Option Proof)
    → read_proof (needs_proof status evidence) c evidence ≡ ok proof
    → Fits status proof
read_proof-Fits c status evidence proof h = ground arith

module _ (budgets : Budgets) (c : String) (binding : OwnerBinding) (status : Status)
    (reason : String) (payload : Details) (evidence : Option StopEvidence) (r : Report)
    (passed : prepare_report budgets c binding status reason payload evidence ≡ ok r) where
  pub prepare_report_parts :
      (status ≡ r.status) × (read_proof (needs_proof status evidence) c evidence ≡ ok r.proof)
  unfolding prepare_report
  prepare_report_parts = ground arith

  -- A report that passed its checks carries a proof with `canceled`, and else only with `failed`.
  pub prepare_report-Fits : Fits r.status r.proof
  prepare_report-Fits =
      rw prepare_report_parts.0 at
        (read_proof-Fits c status evidence r.proof prepare_report_parts.1)

pub after_checks_keeps {ℓ} :
    {A : Type ℓ} (P : Db → Type 0) (r : Result A) (work : A → Db) (db : Db)
    → ((a : A) → r ≡ ok a → P (work a))
    → P db
    → P (after_checks r work db)
after_checks_keeps P (ok a) work db kept h = kept a refl
after_checks_keeps P (raise e) work db kept h = h

pub step-Consistent :
    (budgets : Budgets) (call : Call) (db : Db) → Consistent db → Consistent (step budgets call db)
unfolding step
step-Consistent budgets (admits event_id command names binding task_id) db v =
    after_checks_keeps Consistent (prepare_admit budgets command names binding task_id) _ db
      (λ p _. admit-Consistent budgets event_id p db v) v
step-Consistent budgets (reports event_id c binding status reason payload evidence) db v =
    after_checks_keeps Consistent (prepare_report budgets c binding status reason payload evidence)
      _ db
      (λ r passed.
        report-Consistent budgets event_id r db
          (prepare_report-Fits budgets c binding status reason payload evidence r passed) v)
      v
step-Consistent budgets (reconciles c binding evidence) db v =
    after_checks_keeps Consistent (prepare_reconcile c binding evidence) _ db
      (λ p _. reconcile-Consistent c binding p db v) v
step-Consistent budgets (acks seq) db v =
    after_checks_keeps Consistent (prepare_ack seq) _ db (λ n _. ack-Consistent n db v) v
step-Consistent budgets (restarts fresh) db v = recover-Consistent budgets fresh db v

pub run-keeps :
    (budgets : Budgets) (calls : List Call) (db : Db)
    → Consistent db
    → Consistent (run budgets calls db)
unfolding run
run-keeps budgets [] db v = v
run-keeps budgets (call ∷ calls) db v =
    run-keeps budgets calls (step budgets call db) (step-Consistent budgets call db v)

-- From an empty database, whatever is called in whatever order, restarts included: the events are
-- numbered without repetition, every command's row shows its last event, a resource is held only by
-- a known command whose status keeps the reservation and that has no stop proof, a stop proof belongs
-- to a terminal command, and a canceled command has one.
pub run-Consistent :
    (budgets : Budgets) (calls : List Call) → Consistent (run budgets calls empty_db)
run-Consistent budgets calls = run-keeps budgets calls empty_db empty-Consistent
