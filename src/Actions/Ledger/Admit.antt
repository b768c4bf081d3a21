-- ===== src/Actions/Ledger/Admit.antt =====
-- `ActionLedger.admit` of astrbot_ex/core/actions/ledger.py: the checks before the request is queued
-- and the transaction that the writer runs.
use astrbot_ex.Prelude.{
  String, Bool, true, false, not, none, some, List, [], ◌∷◌, ltb, leb, ◌==◌, ◌=?◌, ◌&&◌, ◌||◌,
  length, all,
}
use astrbot_ex.Prelude.Table.{Table, find}
use astrbot_ex.Prelude.Text.{strip, text_length, sort}
use astrbot_ex.Actions.Error.{
  contract, value_error, Result, ok, raise, raise_if, ◌>>=◌, ◌>>◌, owner_mismatch,
  duplicate_request_id_conflict, resource_conflict,
}
use astrbot_ex.Actions.Status.{admitted}
use astrbot_ex.Actions.Checks.{max_sequence, max_id_len}
use astrbot_ex.Actions.Command.{Command, parse, is_start}
use astrbot_ex.Actions.Ledger.Db.{
  OwnerBinding, Canonical, eq_canonical, CommandRow, Db, Budgets, within, Snapshot, insert,
  snapshot, check_binding, event, set_status, transaction, take_snapshot,
}

-- `_valid_id`
unfoldable pub valid_id : String → Bool
unfolding strip
valid_id value =
    ltb 0 (text_length value) && leb (text_length value) max_id_len && not (strip value =? "")

-- `_validate_binding`
unfoldable pub validate_binding : OwnerBinding → Result (Unit {0})
unfolding valid_id
validate_binding binding =
    raise_if (not (valid_id binding.owner && leb binding.generation max_sequence)) value_error

abbrev pub mem : String → List String → Bool
mem s [] = false
mem s (x ∷ xs) = s =? x || mem s xs

-- `len(names) == len(set(names))`
abbrev pub distinct : List String → Bool
distinct [] = true
distinct (x ∷ xs) = not (mem x xs) && distinct xs

abbrev is_empty : List String → Bool
is_empty [] = true
is_empty _ = false

-- A request that passed the checks; what the queued transaction closes over.
pub record Prepared : Type 0 where
  pub command_id : String
  pub canonical : Canonical
  pub names : List String
  pub binding : OwnerBinding
  pub task_id : String

unfoldable pub prepare_admit :
    Budgets → Command → List String → OwnerBinding → String → Result Prepared
prepare_admit budgets command names binding task_id = do
  validate_binding binding
  raise_if (not (valid_id task_id)) value_error
  raise_if (not (valid_id command.command_id)) value_error
  within (budgets.of_command command)
  parsed ← parse command
  raise_if (not (parsed.owner =? binding.owner && parsed.plugin_generation == binding.generation))
      (contract owner_mismatch)
  raise_if
      (not (
        all valid_id (
          command.command_id ∷ command.ex_session ∷ command.goal_id ∷ command.decision_id
          ∷ command.owner ∷ command.action_id ∷ [])))
      value_error
  raise_if (ltb 256 (length names) || not (distinct names) || not (all valid_id names)) value_error
  raise_if (not (is_start parsed.operation) && not (is_empty names)) value_error
  ok (record {
    command_id = parsed.command_id;
    canonical = record { command = command; resources = sort names };
    names = names;
    binding = binding;
    task_id = task_id;
  })

pub record Admission : Type 0 where
  pub snapshot : Snapshot
  pub admitted_new : Bool

-- `for name in names: ... raise where the name is held`
unfoldable pub check_free : List String → Table String → Result (Unit {0})
check_free [] resources = ok tt
check_free (name ∷ names) resources =
    let others = check_free names resources in
    elim (find name resources) [ none ↦ others | some holder ↦ raise (contract resource_conflict) ]

-- `for name in names: INSERT INTO resources`
unfoldable pub reserve : String → List String → Table String → Result (Table String)
reserve c [] resources = ok resources
reserve c (name ∷ names) resources = do
  resources' ← insert name c resources
  reserve c names resources'

abbrev pub new_row : Prepared → CommandRow
new_row p = record {
  canonical = p.canonical;
  owner = p.binding.owner;
  generation = p.binding.generation;
  status = admitted;
  reason_code = "";
  details = [];
  event_seq = 0;
  task_id = p.task_id;
}

-- a `command_id` that is known already
unfoldable pub readmit : Prepared → Snapshot → Db → Result (Admission × Db)
unfolding eq_canonical check_binding
readmit p existing db = do
  raise_if
      (not (eq_canonical existing.row.canonical p.canonical && existing.row.task_id =? p.task_id))
      (contract duplicate_request_id_conflict)
  check_binding existing.row p.binding
  ok (record { snapshot = existing; admitted_new = false }, db)

unfoldable pub admit_new : Budgets → String → Prepared → Db → Result (Admission × Db)
admit_new budgets event_id p db = do
  check_free p.names db.resources
  commands ← insert p.command_id (new_row p) db.commands
  resources ← reserve p.command_id p.names db.resources
  (seq, db') ←
      event budgets event_id p.command_id admitted "" []
        (record db { commands = commands; resources = resources })
  (s, db'') ←
      take_snapshot p.command_id (set_status p.command_id (new_row p) admitted "" [] seq db')
  ok (record { snapshot = s; admitted_new = true }, db'')

-- the body of `work`
unfoldable pub admit_body : Budgets → String → Prepared → Db → Result (Admission × Db)
admit_body budgets event_id p db = elim (snapshot db p.command_id) [
  | none ↦ admit_new budgets event_id p db
  | some existing ↦ readmit p existing db
]

unfoldable pub admit : Budgets → String → Prepared → Db → Result Admission × Db
unfolding admit_body transaction
admit budgets event_id p db = transaction (admit_body budgets event_id p) db
