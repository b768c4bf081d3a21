-- ===== src/Wire/Examples.antt =====
-- Runs of the budget and of the parsers, and the theorems about them at inputs.
use astrbot_ex.Prelude.{ℕ, ◌≡◌, refl, arith, true, false, none, some, [], ◌∷◌, String-discrete}
use astrbot_ex.Actions.Error.{
  contract, raise, duplicate_request_id_conflict, ◌>>◌, ok, invalid_type, schema_depth_exceeded,
}
use astrbot_ex.Actions.Command.{start, require_text, require_id, require_lease}
use astrbot_ex.Actions.Status.{canceled}
use astrbot_ex.Wire.Json.{
  Json, Members, null, boolean, integer, string, array, object, no_items, item, no_members, member,
  scalar_json_size, string_json_size, digits, char_size,
}
use astrbot_ex.Wire.Budget.{
  accepted, rejected, measure_json_budget, find_non_finite, is_crowded, is_deep, is_over,
}
use astrbot_ex.Wire.Budget.Weight.{verdict_of, weigh}
use astrbot_ex.Wire.Budget.Weight.Runs.{measure_json_budget-weigh}
use astrbot_ex.Wire.Budget.Fits.{
  Fits, has_text, scalar_size, chars_size, json_size, inner, height, is_json,
}
use astrbot_ex.Wire.Budget.Fits.{charge, compact_char}
use astrbot_ex.Wire.Budget.Fits.Text.{compact_size, compact_scalar, compact_chars}
use astrbot_ex.Wire.Fields.{
  require_object, get_or, check_input_budget, check_finite, reject_unknown_fields, check_version,
  require_text_value, require_id_value, require_sequence_value, require_lease_value,
  require_string_list, require_ids, has_duplicate, require_fields, optional_text,
}
use astrbot_ex.Wire.Messages.Commands.{
  operation_of, status_of, validate_stop_evidence, ActionCommand, ActionEvent, parse_command,
  command_to_dict, parse_event,
}
use astrbot_ex.Wire.Messages.Commands.Laws.{IsCommand, parse_command-IsCommand}
use astrbot_ex.Wire.Messages.Commands.Reports.{HasStopped, canceled-HasStopped}
use astrbot_ex.Wire.Messages.Goals.{
  wire_object, validate_goal_text, check_parameters, check_completion, read_revision, GoalSubmit,
  parse_submit, submit_to_dict,
}
use astrbot_ex.Wire.Registry.{check_request, look_up, new, replay, resolve}
use astrbot_ex.Wire.Registry.Laws.{resolve_all, resolve-replay}
use astrbot_ex.Prelude.Table.{find, put}
use astrbot_ex.Prelude.{String, ◌=?◌, if◌then◌else◌}
use astrbot_ex.Wire.Messages.Again.{command_again, submit_again}

-- [1, {"a": true}]
abbrev sample : Json
sample =
    array (
      item (integer false 1) (item (object (member (some "a") (boolean true) no_members)) no_items))

test_accepted : measure_json_budget sample ≡ accepted
unfolding measure_json_budget is_crowded is_deep is_over scalar_json_size digits
test_accepted = refl

test_size : json_size sample ≡ 14
unfolding json_size scalar_size digits chars_size charge compact_char
test_size = refl

abbrev nested : ℕ → Json
nested ℕ.zero = null
nested (ℕ.suc n) = array (item (nested n) no_items)

test_too_deep : measure_json_budget (nested 33) ≡ rejected schema_depth_exceeded
unfolding measure_json_budget is_crowded is_deep is_over scalar_json_size digits
test_too_deep = refl

test_bad_key : measure_json_budget (object (member none null no_members)) ≡ rejected invalid_type
unfolding measure_json_budget is_crowded is_deep is_over scalar_json_size digits
test_bad_key = refl

-- a line feed is two bytes of compact text, and six are charged
test_line_feed : (json_size (string "\n") ≡ 8) × (compact_size (string "\n") ≡ 4)
unfolding json_size compact_size scalar_size compact_scalar chars_size compact_chars charge
    compact_char
test_line_feed = (refl, refl)

measure_json_budget-weigh_example : measure_json_budget sample ≡ verdict_of (weigh sample 0 0 0)
measure_json_budget-weigh_example = measure_json_budget-weigh sample

abbrev one : Json
one = integer false 1

abbrev wire_command : Json
wire_command = object (
    member (some "schema_version") one (
      member (some "command_id") (string " c1 ") (
        member (some "ex_session") (string "s1") (
          member (some "goal_id") (string "g1") (
            member (some "goal_revision") one (
              member (some "decision_id") (string "d1") (
                member (some "owner") (string "o1") (
                  member (some "plugin_generation") one (
                    member (some "action_id") (string "base.move.v1") (
                      member (some "operation") (string "start") (
                        member (some "params") (object no_members)
                          (member (some "lease_ms") (integer false 500) no_members))))))))))))

abbrev sample_command : ActionCommand
sample_command = record {
  command_id = "c1";
  ex_session = "s1";
  goal_id = "g1";
  goal_revision = 1;
  decision_id = "d1";
  owner = "o1";
  plugin_generation = 1;
  action_id = "base.move.v1";
  operation = start;
  params = no_members;
  lease_ms = 500;
}

test_command : parse_command wire_command ≡ ok sample_command
unfolding parse_command get_or check_input_budget check_finite reject_unknown_fields check_version
    require_text_value operation_of require_id_value require_sequence_value require_lease_value
    measure_json_budget is_crowded is_deep is_over scalar_json_size digits string_json_size
    find_non_finite char_size require_text require_id require_lease String-discrete
test_command = refl

command-Fits : Fits (command_to_dict sample_command)
unfolding command_to_dict is_json height inner json_size scalar_size digits chars_size charge
    compact_char has_text
command-Fits = (refl, omega arith, omega arith, omega arith)

command_again_example :
    parse_command (command_to_dict sample_command)
    ≡ (check_input_budget (command_to_dict sample_command) >> ok sample_command)
command_again_example = command_again wire_command sample_command test_command

parse_command-IsCommand_example : IsCommand sample_command
parse_command-IsCommand_example = parse_command-IsCommand wire_command sample_command test_command

abbrev evidence : Members
evidence =
    member (some "stop_evidence") (object (member (some "stopped") (boolean true) no_members))
      no_members

abbrev wire_event : Json
wire_event = object (
    member (some "event_id") (string "e1") (
      member (some "event_seq") one (
        member (some "ex_session") (string "s1") (
          member (some "task_id") (string "t1") (
            member (some "goal_id") (string "g1") (
              member (some "goal_revision") one (
                member (some "command_id") (string "c1") (
                  member (some "owner") (string "o1") (
                    member (some "status") (string "canceled")
                      (member (some "details") (object evidence) no_members))))))))))

abbrev sample_event : ActionEvent
sample_event = record {
  event_id = "e1";
  event_seq = 1;
  ex_session = "s1";
  task_id = "t1";
  goal_id = "g1";
  goal_revision = 1;
  command_id = "c1";
  owner = "o1";
  status = canceled;
  reason_code = "";
  details = evidence;
}

test_event : parse_event wire_event ≡ ok sample_event
unfolding parse_event get_or check_input_budget check_finite reject_unknown_fields
    validate_stop_evidence require_text_value status_of require_id_value require_sequence_value
    optional_text measure_json_budget is_crowded is_deep is_over scalar_json_size digits
    string_json_size find_non_finite char_size require_text require_id String-discrete
test_event = refl

canceled-HasStopped_example : HasStopped evidence
canceled-HasStopped_example = canceled-HasStopped wire_event sample_event test_event refl

abbrev wire_submit : Json
wire_submit = object (
    member (some "schema_version") one (
      member (some "request_id") (string "r1") (
        member (some "ex_session") (string "s1") (
          member (some "task_id") (string "t1") (
            member (some "step_id") (string "p1") (
              member (some "goal_id") (string "g1") (
                member (some "goal_text_en") (string "Move to the door. ") (
                  member (some "allowed_actions") (array (item (string "base.move.v1") no_items)) (
                    member (some "parameters")
                      (object (member (some "base.move.v1") (object no_members) no_members))
                      (member (some "lease_ms") (integer false 500)
                        (member (some "expected_revision") one no_members)))))))))))

abbrev sample_submit : GoalSubmit
sample_submit = record {
  request_id = "r1";
  ex_session = "s1";
  task_id = "t1";
  step_id = "p1";
  goal_id = "g1";
  goal_text_en = "Move to the door.";
  allowed_actions = "base.move.v1" ∷ [];
  parameters = member (some "base.move.v1") (object no_members) no_members;
  completion = no_members;
  lease_ms = 500;
  expected_revision = some 1;
}

test_submit : parse_submit wire_submit ≡ ok sample_submit
unfolding parse_submit wire_object get_or check_input_budget check_finite reject_unknown_fields
    check_version require_text_value validate_goal_text require_id_value require_sequence_value
    require_lease_value require_string_list require_ids has_duplicate check_parameters
    check_completion read_revision require_fields measure_json_budget is_crowded is_deep is_over
    scalar_json_size digits string_json_size find_non_finite char_size require_text require_id
    require_lease String-discrete
test_submit = refl

submit-Fits : Fits (submit_to_dict sample_submit)
unfolding submit_to_dict is_json height inner json_size scalar_size digits chars_size charge
    compact_char has_text
submit-Fits = (refl, omega arith, omega arith, omega arith)

submit_again_example :
    parse_submit (submit_to_dict sample_submit)
    ≡ (check_input_budget (submit_to_dict sample_submit) >> ok sample_submit)
submit_again_example = submit_again wire_submit sample_submit test_submit

-- a text of each payload of the test
abbrev canonical : Json → String
canonical (object no_members) = "{}"
canonical v = "?"

test_resolve : (resolve canonical [] "r1" (object no_members)).0 ≡ ok new
unfolding resolve check_request look_up find put String-discrete require_id check_input_budget
    measure_json_budget is_crowded is_deep is_over require_object
test_resolve = refl

resolve-replay_example :
    (resolve canonical
      (resolve_all canonical
        (resolve canonical [] "r1" (object no_members)).1
        (("r2", sample) ∷ ("r1", null) ∷ []))
      "r1"
      (object no_members)).0
    ≡ (check_request "r1" (object no_members)
        >> (if "{}" =? "{}" then ok replay else raise (contract duplicate_request_id_conflict)))
resolve-replay_example =
    resolve-replay canonical [] "r1" (object no_members) (object no_members)
      (("r2", sample) ∷ ("r1", null) ∷ []) test_resolve
