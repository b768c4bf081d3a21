-- ===== src/Actions/Ledger/Examples.antt =====
-- Runs of the ledger on concrete requests: an admission, a conflict, a cancellation, a restart.
use astrbot_ex.Prelude.{
  ℕ, String, String-discrete, ◌≡◌, ◌⊎◌, refl, ap, subst, true, false, none, some, List, [], ◌∷◌,
}
use astrbot_ex.Prelude.Table.{find, put}
use astrbot_ex.Prelude.Text.{sort, insert_sorted, strip}
use astrbot_ex.Actions.Error.{ok, raise, contract, resource_conflict}
use astrbot_ex.Actions.Status.{
  Status, admitted, accepted, running, canceled, unknown, succeeded, is_terminal, can_transition,
}
use astrbot_ex.Actions.Command.{Command, start}
use astrbot_ex.Actions.Ledger.Db.{
  OwnerBinding, StopEvidence, Proof, CommandRow, Db, empty_db, Budgets, insert, held_by, release,
  snapshot, fetch, event, set_status, transaction, check_binding,
}
use astrbot_ex.Actions.Ledger.Admit.{
  Prepared, Admission, mem, prepare_admit, check_free, reserve, admit_new, admit_body, admit,
  validate_binding, valid_id,
}
use astrbot_ex.Actions.Ledger.Report.{
  Report, report, reconcile_stop, report_body, prepare_report, advance,
}
use astrbot_ex.Actions.Ledger.Recovery.{live_ids, recover_one, recover_each, recover}
use astrbot_ex.Actions.Ledger.Calls.{Call, admits, reports, acks, restarts, step, run}
use astrbot_ex.Actions.Ledger.Invariant.Kept.{Consistent, empty-Consistent, admit-Consistent}
use astrbot_ex.Actions.Ledger.Invariant.Runs.{run-Consistent, run-keeps}
use astrbot_ex.Actions.Ledger.Admission.{admit_conflict, admit-Admits, Admits, admit_once}
use astrbot_ex.Actions.Ledger.Evolution.Restart.{Restarted, recover-Restarted}
use astrbot_ex.Actions.Ledger.Evolution.Rows.{Evolves, step-Evolves, run_terminal}
use astrbot_ex.Actions.Ledger.Faults.{Survives, calls_survive}
use astrbot_ex.Actions.Ledger.Reservations.{Ended, step-Kept}

-- every value within the budget
abbrev free : Budgets
free = record { of_command = λ _. none; of_details = λ _. none; of_event = λ _. none }

abbrev pick : Command
pick = record {
  command_id = "c1";
  ex_session = "s";
  goal_id = "g";
  goal_revision = 1;
  decision_id = "d";
  owner = "plugin";
  plugin_generation = 1;
  action_id = "pick";
  operation = start;
  params = "{}";
  lease_ms = 500;
}

abbrev plugin : OwnerBinding
plugin = record { owner = "plugin"; generation = 1 }

abbrev prepared : String → Prepared
prepared c = record {
  command_id = c;
  canonical = record { command = record pick { command_id = c }; resources = "arm" ∷ [] };
  names = "arm" ∷ [];
  binding = plugin;
  task_id = "t1";
}

abbrev row : Status → ℕ → CommandRow
row status seq = record {
  canonical = record { command = pick; resources = "arm" ∷ [] };
  owner = "plugin";
  generation = 1;
  status = status;
  reason_code = "";
  details = [];
  event_seq = seq;
  task_id = "t1";
}

abbrev first_db : Db
first_db = record {
  commands = ("c1", row admitted 1) ∷ [];
  resources = ("arm", "c1") ∷ [];
  events =
      (record {
        event_seq = 1;
        command_id = "c1";
        status = admitted;
        reason_code = "";
        details = [];
        acknowledged = false;
        event_id = "e1";
      })
      ∷ [];
  sequence = 1;
  stop_evidence = [];
}

abbrev first_admission : Admission
first_admission = record {
  snapshot = record { command_id = "c1"; row = row admitted 1; held_resources = "arm" ∷ [] };
  admitted_new = true;
}

test_admit : admit free "e1" (prepared "c1") empty_db ≡ (ok first_admission, first_db)
unfolding admit admit_body transaction snapshot admit_new check_free insert reserve event fetch
    set_status find put held_by sort insert_sorted String-discrete
test_admit = refl

first-Consistent : Consistent first_db
first-Consistent =
    subst Consistent (ap (λ r. r.1) test_admit)
      (admit-Consistent free "e1" (prepared "c1") empty_db empty-Consistent)

abbrev evidence : StopEvidence
evidence = record { command_id = "c1"; stopped = true; source = "plugin"; reference = "r" }

abbrev session : List Call
session =
    admits "e1" pick ("arm" ∷ []) plugin "t1"
    ∷ reports "e2" "c1" plugin accepted "" [] none
    ∷ reports "e3" "c1" plugin canceled "stop" [] (some evidence)
    ∷ acks 2
    ∷ restarts (λ c. c)
    ∷ []

run-Consistent_example : Consistent (run free session empty_db)
run-Consistent_example = run-Consistent free session

admit_once_example :
    ((admit free "e9" (prepared "c1") (run free session first_db)).1 ≡ run free session first_db)
    × ((b : Admission)
        → (admit free "e9" (prepared "c1") (run free session first_db)).0 ≡ ok b
        → b.admitted_new ≡ false)
admit_once_example =
    admit_once free "e1" "e9" (prepared "c1") (prepared "c1") session first_admission empty_db
      first_db empty-Consistent test_admit refl refl

admit-Admits_example : Admits free "e1" (prepared "c1") empty_db first_db
admit-Admits_example =
    admit-Admits free "e1" (prepared "c1") empty_db first_admission first_db test_admit refl

found_first : find "c1" first_db.commands ≡ some (row admitted 1)
unfolding find String-discrete
found_first = refl

missing_second : find "c2" first_db.commands ≡ none
unfolding find String-discrete
missing_second = refl

arm_held : find "arm" first_db.resources ≡ some "c1"
unfolding find String-discrete
arm_held = refl

arm_asked : mem "arm" (prepared "c2").names ≡ true
unfolding String-discrete
arm_asked = refl

admit_conflict_example :
    admit free "e2" (prepared "c2") first_db ≡ (raise (contract resource_conflict), first_db)
admit_conflict_example =
    admit_conflict free "e2" (prepared "c2") first_db "arm" "c1" missing_second arm_asked arm_held

calls_survive_example :
    ((command : Command) (names : List String) (binding : OwnerBinding) (task_id : String)
        (p : Prepared)
      → prepare_admit free command names binding task_id ≡ ok p
      → Survives (admit free "e2" p first_db).0)
    × ((r : Report) → Survives (report free "e2" r first_db).0)
    × ((c : String) (binding : OwnerBinding) (p : Proof)
        → Survives (reconcile_stop c binding p first_db).0)
calls_survive_example = calls_survive free "e2" first_db first-Consistent

step-Evolves_example :
    Evolves
      (row admitted 1)
      (find "c1" (step free (reports "e2" "c1" plugin accepted "" [] none) first_db).commands)
step-Evolves_example =
    step-Evolves free "c1" (row admitted 1) first_db found_first
      (reports "e2" "c1" plugin accepted "" [] none) first-Consistent

step-Kept_example :
    (find "arm" (step free (restarts (λ c. c)) first_db).resources ≡ some "c1")
    ⊎ Ended
        (find "c1" (step free (restarts (λ c. c)) first_db).commands)
        (find "c1" (step free (restarts (λ c. c)) first_db).stop_evidence)
step-Kept_example = step-Kept free "arm" "c1" first_db arm_held first-Consistent (restarts (λ c. c))

-- after a report that the command succeeded
abbrev success : List Call
success =
    reports "e2" "c1" plugin accepted "" [] none
    ∷ reports "e3" "c1" plugin running "" [] none
    ∷ reports "e4" "c1" plugin succeeded "" [] none
    ∷ []

found_done : find "c1" (run free success first_db).commands ≡ some (row succeeded 4)
unfolding run step report report_body prepare_report validate_binding valid_id strip check_binding
    can_transition advance transaction snapshot insert event fetch set_status find put held_by
    release sort insert_sorted String-discrete
found_done = refl

run_terminal_example :
    find "c1" (run free session (run free success first_db)).commands ≡ some (row succeeded 4)
unfolding is_terminal
run_terminal_example =
    run_terminal free session "c1" (row succeeded 4) (run free success first_db)
      (run-keeps free success first_db first-Consistent) found_done refl

abbrev reviewed : CommandRow
reviewed = record (row unknown 2) { reason_code = "resume_review" }

abbrev restarted_db : Db
restarted_db = record first_db {
  commands = ("c1", reviewed) ∷ [];
  events =
      (record {
        event_seq = 1;
        command_id = "c1";
        status = admitted;
        reason_code = "";
        details = [];
        acknowledged = false;
        event_id = "e1";
      })
      ∷ (record {
        event_seq = 2;
        command_id = "c1";
        status = unknown;
        reason_code = "resume_review";
        details = [];
        acknowledged = false;
        event_id = "c1";
      })
      ∷ [];
  sequence = 2;
}

test_recover : recover free (λ c. c) first_db ≡ (ok tt, restarted_db)
unfolding recover transaction recover_each recover_one live_ids event fetch set_status find put sort
    insert_sorted String-discrete
test_recover = refl

recover-Restarted_example : Restarted first_db restarted_db
recover-Restarted_example =
    recover-Restarted free (λ c. c) first_db restarted_db (unfold find in (refl, tt)) test_recover
