-- ===== src/Actions/Ledger/Faults.antt =====
-- No call trips over a PRIMARY KEY: the `sqlite3.Error` on which the writer thread of
-- astrbot_ex/core/actions/ledger.py dies never comes from the ledger's own inserts.
use astrbot_ex.Prelude.{
  String, ◌≡◌, refl, Bool, true, false, none, some, List, [], ◌∷◌, arith, Bool-cases, inl, inr, not,
  if◌then◌else◌,
}
use astrbot_ex.Prelude.Table.{Table, find}
use astrbot_ex.Actions.Error.{Result, ok, raise, integrity, reject_if, illegal_transition, ◌>>=◌}
use astrbot_ex.Actions.Status.{Status, admitted, is_terminal, can_transition, eq_status}
use astrbot_ex.Actions.Command.{Command}
use astrbot_ex.Actions.Ledger.Db.{
  OwnerBinding, Proof, Details, CommandRow, Db, Budgets, insert, transaction, fetch, check_binding,
  snapshot, event, take_snapshot,
}
use astrbot_ex.Actions.Ledger.Admit.{
  Prepared, distinct, new_row, check_free, reserve, prepare_admit, admit_new, readmit, admit_body,
  admit,
}
use astrbot_ex.Actions.Ledger.Report.{
  Report, report, report_body, advance, record_proof, reconcile_stop, reconcile_body,
}
use astrbot_ex.Actions.Ledger.Tables.{check_free-Free, reserve-Free, insert_free, is_ok}
use astrbot_ex.Actions.Ledger.Invariant.Holds.{MayProve}
use astrbot_ex.Actions.Ledger.Invariant.Kept.{Consistent}

-- the writer thread survives the outcome
abbrev pub Survives {ℓ} : {A : Type ℓ} → Result A → Type 0
Survives (raise integrity) = ⊥
Survives _ = Unit

bind-Survives {ℓ κ} :
    {A : Type ℓ} {B : Type κ} (m : Result A) (f : A → Result B)
    → Survives m
    → ((a : A) → m ≡ ok a → Survives (f a))
    → Survives (m >>= f)
bind-Survives (ok a) f h k = k a refl
bind-Survives (raise e) f h k = h

transaction-Survives {ℓ} :
    {A : Type ℓ} (body : Db → Result (A × Db)) (db : Db)
    → Survives (body db)
    → Survives (transaction body db).0
unfolding transaction
transaction-Survives {A = A} body db h = through (body db) h
  where
    through :
        (r : Result (A × Db))
        → Survives r
        → Survives
            (elim r as (λ _. Result A × Db) [
              | ok (a, db') ↦ (ok a, db')
              | raise e ↦ (raise e, db)
            ]).0
    through (ok (a, db')) s = s
    through (raise e) s = s

event-Survives :
    (budgets : Budgets) (event_id c : String) (status : Status) (reason : String)
    (details : Details) (db : Db)
    → Survives (event budgets event_id c status reason details db)
unfolding event fetch
event-Survives budgets event_id c status reason details db = ground arith

take_snapshot-Survives : (c : String) (db : Db) → Survives (take_snapshot c db)
take_snapshot-Survives c db = ground arith

check_free-Survives : (names : List String) (t : Table String) → Survives (check_free names t)
unfolding check_free
check_free-Survives [] t = tt
check_free-Survives (x ∷ xs) t = ground (arith, check_free-Survives xs t)

ok-Survives : (r : Result (Table String)) → is_ok r ≡ true → Survives r
ok-Survives (ok t) h = tt
ok-Survives (raise e) h = cc

fetch-Survives : (db : Db) (c : String) → Survives (fetch db c)
unfolding fetch
fetch-Survives db c = ground arith

fetched :
    (db : Db) (c : String) (row : CommandRow) → fetch db c ≡ ok row → find c db.commands ≡ some row
unfolding fetch
fetched db c row h = ground arith

check_binding-Survives :
    (row : CommandRow) (binding : OwnerBinding) → Survives (check_binding row binding)
unfolding check_binding
check_binding-Survives row binding = ground arith

reject_if-Survives : (b : Bool) → Survives (reject_if b illegal_transition)
reject_if-Survives true = tt
reject_if-Survives false = tt

accepted_of : (b : Bool) → reject_if (not b) illegal_transition ≡ ok tt → b ≡ true
accepted_of true h = refl
accepted_of false h = cc

live_of_transition :
    (s t : Status) → can_transition s t ≡ true → eq_status s t ≡ false → is_terminal s ≡ false
unfolding can_transition is_terminal
live_of_transition s t h n = ground arith

reconcile_body-Survives :
    (c : String) (binding : OwnerBinding) (p : Proof) (db : Db)
    → Survives (reconcile_body c binding p db)
unfolding reconcile_body fetch insert check_binding
reconcile_body-Survives c binding p db = ground arith

module _ (budgets : Budgets) (event_id : String) (db : Db) where
  admit_new-Survives :
      (p : Prepared)
      → distinct p.names ≡ true
      → find p.command_id db.commands ≡ none
      → Survives (admit_new budgets event_id p db)
  unfolding admit_new
  admit_new-Survives p d new =
      bind-Survives (check_free p.names db.resources) _ (check_free-Survives p.names db.resources)
        λ _ free.
          bind-Survives (insert p.command_id (new_row p) db.commands) _
            (rw (insert_free p.command_id (new_row p) db.commands new) tt)
            λ commands _.
              bind-Survives (reserve p.command_id p.names db.resources) _
                (ok-Survives _ (
                  reserve-Free p.command_id p.names db.resources d
                    (check_free-Free p.names db.resources free)))
                λ resources _.
                  bind-Survives _ _ (event-Survives budgets event_id p.command_id admitted "" [] _)
                    λ (seq, db') _.
                      bind-Survives _ _ (take_snapshot-Survives p.command_id _) (λ s _. tt)

  admit_body-Survives :
      (p : Prepared) → distinct p.names ≡ true → Survives (admit_body budgets event_id p db)
  unfolding admit_body readmit snapshot
  admit_body-Survives p d = ground (arith, admit_new-Survives p d)

  prepare_admit_distinct :
      (command : Command) (names : List String) (binding : OwnerBinding) (task_id : String)
      (p : Prepared)
      → prepare_admit budgets command names binding task_id ≡ ok p
      → distinct p.names ≡ true
  unfolding prepare_admit
  prepare_admit_distinct command names binding task_id p h = ground arith

  record_proof-Survives :
      (r : Report) (row : CommandRow)
      → find r.command_id db.commands ≡ some row
      → is_terminal row.status ≡ false
      → MayProve (find r.command_id db.commands) (find r.command_id db.stop_evidence)
      → Survives (record_proof r.command_id r.proof db.stop_evidence)
  unfolding insert
  record_proof-Survives r row there live may = ground arith

  advance-Survives :
      (r : Report) (row : CommandRow)
      → Survives (record_proof r.command_id r.proof db.stop_evidence)
      → Survives (advance budgets event_id r row db)
  unfolding advance
  advance-Survives r row h =
      bind-Survives (record_proof r.command_id r.proof db.stop_evidence) _ h λ evidence _.
        bind-Survives _ _
          (event-Survives budgets event_id r.command_id r.status r.reason_code r.details _)
          λ (seq, db') _. take_snapshot-Survives r.command_id _

  moved-Survives :
      (r : Report) (row : CommandRow)
      → fetch db r.command_id ≡ ok row
      → reject_if (not (can_transition row.status r.status)) illegal_transition ≡ ok tt
      → MayProve (find r.command_id db.commands) (find r.command_id db.stop_evidence)
      → Survives (
          if eq_status row.status r.status
          then take_snapshot r.command_id db
          else advance budgets event_id r row db)
  moved-Survives r row found legal may = elim (Bool-cases (eq_status row.status r.status)) [
    | inl same ↦ rw same (take_snapshot-Survives r.command_id db)
    | inr moves ↦ rw moves (
        advance-Survives r row (
          record_proof-Survives r row (fetched db r.command_id row found)
            (live_of_transition row.status r.status (accepted_of _ legal) moves) may))
  ]

  report_body-Survives :
      (r : Report)
      → MayProve (find r.command_id db.commands) (find r.command_id db.stop_evidence)
      → Survives (report_body budgets event_id r db)
  unfolding report_body
  report_body-Survives r may =
      bind-Survives (fetch db r.command_id) _ (fetch-Survives db r.command_id) λ row found.
        bind-Survives (check_binding row r.binding) _ (check_binding-Survives row r.binding) λ _ _.
          bind-Survives (reject_if (not (can_transition row.status r.status)) illegal_transition) _
            (reject_if-Survives (not (can_transition row.status r.status)))
            λ u legal. moved-Survives r row found legal may

-- The inserts of an admission and of a report never violate a primary key, in a consistent database
-- and for any request that passed its checks: so neither call ends in the `sqlite3.Error` that
-- would stop the writer thread.
pub calls_survive :
    (budgets : Budgets) (event_id : String) (db : Db)
    → Consistent db
    → ((command : Command) (names : List String) (binding : OwnerBinding) (task_id : String)
          (p : Prepared)
        → prepare_admit budgets command names binding task_id ≡ ok p
        → Survives (admit budgets event_id p db).0)
      × ((r : Report) → Survives (report budgets event_id r db).0)
      × ((c : String) (binding : OwnerBinding) (p : Proof)
          → Survives (reconcile_stop c binding p db).0)
unfolding admit report reconcile_stop
calls_survive budgets event_id db v = (
  λ command names binding task_id p h. transaction-Survives (admit_body budgets event_id p) db (
      admit_body-Survives budgets event_id db p
        (prepare_admit_distinct budgets event_id db command names binding task_id p h)),
  λ r.
      transaction-Survives (report_body budgets event_id r) db
        (report_body-Survives budgets event_id db r (v.reserved.proofs r.command_id)),
  λ c binding p.
      transaction-Survives (reconcile_body c binding p) db (reconcile_body-Survives c binding p db),
)
