-- ===== src/Wire/Messages/Commands.antt =====
-- `ActionCommand.parse` and `to_dict`, `validate_stop_evidence`, `ActionEvent.parse` and `to_dict` of
-- astrbot_ex/core/actions/models.py.
pub mod Laws
pub mod Reports
use astrbot_ex.Prelude.{
  ℕ, String, Bool, true, false, not, Option, none, some, List, [], ◌∷◌, ◌=?◌, ◌||◌, if◌then◌else◌,
}
use astrbot_ex.Actions.Error.{
  contract, Result, ok, raise, reject_if, ◌>>=◌, ◌>>◌, unsupported_operation, missing_params,
  invalid_type, missing_field, enum_violation, unknown_field,
}
use astrbot_ex.Actions.Command.{Operation, start, cancel, pause, resume}
use astrbot_ex.Actions.Status.{
  Status, admitted, rejected, accepted, running, succeeded, failed, canceled, timed_out, unknown,
  eq_status,
}
use astrbot_ex.Wire.Json.{
  Json, Items, Members, null, boolean, integer, string, array, object, no_members, member,
}
use astrbot_ex.Wire.Fields.{
  get_field, get_or, field, has, require_object, require_text_value, require_id_value,
  require_sequence_value, require_bool, require_lease_value, optional_text, is_listed,
  check_input_budget, check_finite, reject_unknown_fields, check_version,
}

pub record ActionCommand : Type 0 where
  pub command_id : String
  pub ex_session : String
  pub goal_id : String
  pub goal_revision : ℕ
  pub decision_id : String
  pub owner : String
  pub plugin_generation : ℕ
  pub action_id : String
  pub operation : Operation
  pub params : Members
  pub lease_ms : ℕ

abbrev pub operation_name : Operation → String
operation_name start = "start"
operation_name cancel = "cancel"
operation_name pause = "pause"
operation_name resume = "resume"

-- `if operation not in ALL_OPERATIONS`
unfoldable pub operation_of : String → Result Operation
operation_of s =
    if s =? "start"
    then ok start
    else if s =? "cancel"
    then ok cancel
    else if s =? "pause"
    then ok pause
    else if s =? "resume"
    then ok resume
    else raise (contract unsupported_operation)

abbrev pub command_fields : List String
command_fields =
    "schema_version" ∷ "command_id" ∷ "ex_session" ∷ "goal_id" ∷ "goal_revision" ∷ "decision_id"
    ∷ "owner" ∷ "plugin_generation" ∷ "action_id" ∷ "operation" ∷ "params" ∷ "lease_ms" ∷ []

-- `if params is None`
abbrev pub require_params : Json → Result Members
require_params null = raise (contract missing_params)
require_params v = require_object v

unfoldable pub parse_command : Json → Result ActionCommand
unfolding require_object
parse_command v = do
  raw ← require_object v
  check_input_budget (object raw)
  reject_unknown_fields raw command_fields
  check_version raw
  name ← require_text_value none (field "operation" raw)
  operation ← operation_of name
  params ← require_params (field "params" raw)
  check_finite (object params)
  command_id ← require_id_value (field "command_id" raw)
  ex_session ← require_id_value (field "ex_session" raw)
  goal_id ← require_id_value (field "goal_id" raw)
  goal_revision ← require_sequence_value 0 (field "goal_revision" raw)
  decision_id ← require_id_value (field "decision_id" raw)
  owner ← require_id_value (field "owner" raw)
  plugin_generation ← require_sequence_value 0 (field "plugin_generation" raw)
  action_id ← require_id_value (field "action_id" raw)
  lease_ms ← require_lease_value (field "lease_ms" raw)
  ok (record {
    command_id = command_id;
    ex_session = ex_session;
    goal_id = goal_id;
    goal_revision = goal_revision;
    decision_id = decision_id;
    owner = owner;
    plugin_generation = plugin_generation;
    action_id = action_id;
    operation = operation;
    params = params;
    lease_ms = lease_ms;
  })

abbrev pub number : ℕ → Json
number n = integer false n

abbrev pub command_members : ActionCommand → Members
command_members c = member (some "schema_version") (number 1) (
    member (some "command_id") (string c.command_id) (
      member (some "ex_session") (string c.ex_session) (
        member (some "goal_id") (string c.goal_id) (
          member (some "goal_revision") (number c.goal_revision) (
            member (some "decision_id") (string c.decision_id) (
              member (some "owner") (string c.owner) (
                member (some "plugin_generation") (number c.plugin_generation) (
                  member (some "action_id") (string c.action_id) (
                    member (some "operation") (string (operation_name c.operation)) (
                      member (some "params") (object c.params)
                        (member (some "lease_ms") (number c.lease_ms) no_members)))))))))))

unfoldable pub command_to_dict : ActionCommand → Json
command_to_dict c = object (command_members c)

-- the loop over the evidence's keys
unfoldable pub check_evidence : Members → Result (Unit {0})
unfolding require_id_value
check_evidence no_members = ok tt
check_evidence (member none v rest) = raise (contract unknown_field)
check_evidence (member (some k) v rest) =
    let others = check_evidence rest in
    if k =? "stopped"
    then others
    else if k =? "source" || k =? "reference"
    then (do id ← require_id_value v; others)
    else raise (contract unknown_field)

unfoldable pub validate_stop_evidence : Members → Result (Unit {0})
unfolding has get_or require_object require_bool check_evidence
validate_stop_evidence details = do
  reject_if (not (has "stop_evidence" details)) missing_field
  evidence ← require_object (field "stop_evidence" details)
  reject_if (not (has "stopped" evidence)) missing_field
  stopped ← require_bool (field "stopped" evidence)
  reject_if (not stopped) enum_violation
  check_evidence evidence

pub record ActionEvent : Type 0 where
  pub event_id : String
  pub event_seq : ℕ
  pub ex_session : String
  pub task_id : String
  pub goal_id : String
  pub goal_revision : ℕ
  pub command_id : String
  pub owner : String
  pub status : Status
  pub reason_code : String
  pub details : Members

abbrev pub status_name : Status → String
status_name admitted = "admitted"
status_name rejected = "rejected"
status_name accepted = "accepted"
status_name running = "running"
status_name succeeded = "succeeded"
status_name failed = "failed"
status_name canceled = "canceled"
status_name timed_out = "timed_out"
status_name unknown = "unknown"

-- `if status not in LEGAL_TRANSITIONS`
unfoldable pub status_of : String → Result Status
status_of s =
    if s =? "admitted"
    then ok admitted
    else if s =? "rejected"
    then ok rejected
    else if s =? "accepted"
    then ok accepted
    else if s =? "running"
    then ok running
    else if s =? "succeeded"
    then ok succeeded
    else if s =? "failed"
    then ok failed
    else if s =? "canceled"
    then ok canceled
    else if s =? "timed_out"
    then ok timed_out
    else if s =? "unknown"
    then ok unknown
    else raise (contract invalid_type)

abbrev pub event_fields : List String
event_fields =
    "event_id" ∷ "event_seq" ∷ "ex_session" ∷ "task_id" ∷ "goal_id" ∷ "goal_revision" ∷ "command_id"
    ∷ "owner" ∷ "status" ∷ "reason_code" ∷ "details" ∷ []

-- `if status == ActionStatus.CANCELED`
abbrev pub check_stop : Status → Members → Result (Unit {0})
check_stop canceled details = validate_stop_evidence details
check_stop _ details = ok tt

unfoldable pub parse_event : Json → Result ActionEvent
unfolding require_object
parse_event v = do
  raw ← require_object v
  check_input_budget (object raw)
  reject_unknown_fields raw event_fields
  name ← require_text_value none (field "status" raw)
  status ← status_of name
  details ← require_object (get_or (object no_members) "details" raw)
  check_stop status details
  check_finite (object details)
  event_id ← require_id_value (field "event_id" raw)
  event_seq ← require_sequence_value 1 (field "event_seq" raw)
  ex_session ← require_id_value (field "ex_session" raw)
  task_id ← require_id_value (field "task_id" raw)
  goal_id ← require_id_value (field "goal_id" raw)
  goal_revision ← require_sequence_value 0 (field "goal_revision" raw)
  command_id ← require_id_value (field "command_id" raw)
  owner ← require_id_value (field "owner" raw)
  reason_code ← optional_text (get_or (string "") "reason_code" raw)
  ok (record {
    event_id = event_id;
    event_seq = event_seq;
    ex_session = ex_session;
    task_id = task_id;
    goal_id = goal_id;
    goal_revision = goal_revision;
    command_id = command_id;
    owner = owner;
    status = status;
    reason_code = reason_code;
    details = details;
  })

abbrev pub event_members : ActionEvent → Members
event_members e = member (some "event_id") (string e.event_id) (
    member (some "event_seq") (number e.event_seq) (
      member (some "ex_session") (string e.ex_session) (
        member (some "task_id") (string e.task_id) (
          member (some "goal_id") (string e.goal_id) (
            member (some "goal_revision") (number e.goal_revision) (
              member (some "command_id") (string e.command_id) (
                member (some "owner") (string e.owner) (
                  member (some "status") (string (status_name e.status)) (
                    member (some "reason_code") (string e.reason_code)
                      (member (some "details") (object e.details) no_members))))))))))

unfoldable pub event_to_dict : ActionEvent → Json
event_to_dict e = object (event_members e)
