-- ===== src/Actions/Ledger/Calls.antt =====
-- The calls of `ActionLedger` as the writer thread serves them, one after the other, each with the
-- checks that run before it is queued (astrbot_ex/core/actions/ledger.py).
use astrbot_ex.Prelude.{ℕ, String, Option, List, [], ◌∷◌}
use astrbot_ex.Actions.Error.{Result, ok, raise}
use astrbot_ex.Actions.Status.{Status}
use astrbot_ex.Actions.Command.{Command}
use astrbot_ex.Actions.Ledger.Db.{OwnerBinding, StopEvidence, Details, Db, Budgets}
use astrbot_ex.Actions.Ledger.Admit.{prepare_admit, admit}
use astrbot_ex.Actions.Ledger.Report.{
  prepare_report, report, prepare_reconcile, reconcile_stop, prepare_ack, ack,
}
use astrbot_ex.Actions.Ledger.Recovery.{recover}

-- The first text of `admits` and `reports` is the fresh event id; `restarts` has one per command.
pub data Call : Type 0 where
  admits : String → Command → List String → OwnerBinding → String → Call
  reports : String → String → OwnerBinding → Status → String → Details → Option StopEvidence → Call
  reconciles : String → OwnerBinding → Option StopEvidence → Call
  acks : ℕ → Call
  restarts : (String → String) → Call

-- A call that fails its checks is not queued.
abbrev pub after_checks {ℓ} : {A : Type ℓ} → Result A → (A → Db) → Db → Db
after_checks (ok a) work db = work a
after_checks (raise e) work db = db

unfoldable pub step : Budgets → Call → Db → Db
step budgets (admits event_id command names binding task_id) db =
    after_checks (prepare_admit budgets command names binding task_id)
      (λ p. (admit budgets event_id p db).1) db
step budgets (reports event_id c binding status reason payload evidence) db =
    after_checks (prepare_report budgets c binding status reason payload evidence)
      (λ r. (report budgets event_id r db).1) db
step budgets (reconciles c binding evidence) db =
    after_checks (prepare_reconcile c binding evidence) (λ p. (reconcile_stop c binding p db).1) db
step budgets (acks seq) db = after_checks (prepare_ack seq) (λ n. (ack n db).1) db
step budgets (restarts fresh) db = (recover budgets fresh db).1

unfoldable pub run : Budgets → List Call → Db → Db
run budgets [] db = db
run budgets (call ∷ calls) db = run budgets calls (step budgets call db)
