-- ===== src/Wire/Messages/Goals.antt =====
-- `_wire_object`, `GoalSubmit`, `GoalCancel` and `GoalRenew` with their `parse` and `to_dict`:
-- astrbot_ex/core/decision/models.py; `validate_goal_text` of astrbot_ex/core/actions/models.py.
pub mod Laws
pub mod Submit
use astrbot_ex.Prelude.{
  ℕ, String, Bool, true, false, not, Option, none, some, List, [], ◌∷◌, ◌=?◌, ◌||◌, ◌&&◌,
  if◌then◌else◌,
}
use astrbot_ex.Actions.Error.{
  ErrorCode, contract, Result, ok, raise, reject_if, ◌>>=◌, ◌>>◌, invalid_type, non_finite_number,
  enum_violation, unknown_action, unknown_field,
}
use astrbot_ex.Actions.Command.{require_id}
use astrbot_ex.Decision.Goal.Defs.{GoalCancel, GoalRenew}
use astrbot_ex.Wire.Json.{
  Json, Items, Members, null, boolean, integer, real, string, array, object, other, no_items, item,
  no_members, member,
}
use astrbot_ex.Wire.Budget.{Verdict, accepted, rejected, out_of_fuel, find_non_finite}
use astrbot_ex.Wire.Fields.{
  get_or, field, has, require_object, require_text_value, require_id_value, require_sequence_value,
  require_string_list, require_lease_value, optional_text, strings, is_listed, has_duplicate,
  require_ids, check_input_budget, check_finite, reject_unknown_fields, check_version,
  require_fields,
}
use astrbot_ex.Wire.Messages.Commands.{number}

-- the codes that `_wire_object` reports first
abbrev pub check_local : Verdict → Result (Unit {0})
check_local (rejected non_finite_number) = raise (contract non_finite_number)
check_local (rejected invalid_type) = raise (contract invalid_type)
check_local _ = ok tt

unfoldable pub wire_object : List String → Json → Result Members
unfolding require_object require_fields
wire_object fields v = do
  raw ← require_object v
  check_local (find_non_finite (object raw))
  check_input_budget (object raw)
  check_finite (object raw)
  reject_unknown_fields raw fields
  require_fields ("schema_version" ∷ []) raw
  ok raw

abbrev pub cancel_fields : List String
cancel_fields =
    "schema_version" ∷ "request_id" ∷ "ex_session" ∷ "goal_id" ∷ "goal_revision" ∷ "reason_code"
    ∷ []

unfoldable pub parse_cancel : Json → Result GoalCancel
parse_cancel v = do
  raw ← wire_object cancel_fields v
  check_version raw
  request_id ← require_id_value (field "request_id" raw)
  ex_session ← require_id_value (field "ex_session" raw)
  goal_id ← require_id_value (field "goal_id" raw)
  goal_revision ← require_sequence_value 0 (field "goal_revision" raw)
  reason_code ← optional_text (get_or (string "") "reason_code" raw)
  ok (record {
    request_id = request_id;
    ex_session = ex_session;
    goal_id = goal_id;
    goal_revision = goal_revision;
    reason_code = reason_code;
  })

abbrev pub cancel_members : GoalCancel → Members
cancel_members c = member (some "schema_version") (number 1) (
    member (some "request_id") (string c.request_id) (
      member (some "ex_session") (string c.ex_session) (
        member (some "goal_id") (string c.goal_id) (
          member (some "goal_revision") (number c.goal_revision)
            (member (some "reason_code") (string c.reason_code) no_members)))))

unfoldable pub cancel_to_dict : GoalCancel → Json
cancel_to_dict c = object (cancel_members c)

abbrev pub renew_fields : List String
renew_fields =
    "schema_version" ∷ "request_id" ∷ "ex_session" ∷ "goal_id" ∷ "goal_revision" ∷ "lease_ms" ∷ []

unfoldable pub parse_renew : Json → Result GoalRenew
parse_renew v = do
  raw ← wire_object renew_fields v
  check_version raw
  request_id ← require_id_value (field "request_id" raw)
  ex_session ← require_id_value (field "ex_session" raw)
  goal_id ← require_id_value (field "goal_id" raw)
  goal_revision ← require_sequence_value 0 (field "goal_revision" raw)
  lease_ms ← require_lease_value (field "lease_ms" raw)
  ok (record {
    request_id = request_id;
    ex_session = ex_session;
    goal_id = goal_id;
    goal_revision = goal_revision;
    lease_ms = lease_ms;
  })

abbrev pub renew_members : GoalRenew → Members
renew_members r = member (some "schema_version") (number 1) (
    member (some "request_id") (string r.request_id) (
      member (some "ex_session") (string r.ex_session) (
        member (some "goal_id") (string r.goal_id) (
          member (some "goal_revision") (number r.goal_revision)
            (member (some "lease_ms") (number r.lease_ms) no_members)))))

unfoldable pub renew_to_dict : GoalRenew → Json
renew_to_dict r = object (renew_members r)

pub record GoalSubmit : Type 0 where
  pub request_id : String
  pub ex_session : String
  pub task_id : String
  pub step_id : String
  pub goal_id : String
  pub goal_text_en : String
  pub allowed_actions : List String
  pub parameters : Members
  pub completion : Members
  pub lease_ms : ℕ
  pub expected_revision : Option ℕ

abbrev pub max_goal_text_len : ℕ
max_goal_text_len = 4096

unfoldable pub validate_goal_text : Json → Result String
validate_goal_text v = require_text_value (some max_goal_text_len) v

-- `for key, value in parameters.items()`
unfoldable pub check_parameters : List String → Members → Result (Unit {0})
unfolding is_listed require_object
check_parameters allowed no_members = ok tt
check_parameters allowed (member none v rest) = raise (contract invalid_type)
check_parameters allowed (member (some key) v rest) = do
  id ← require_id key
  reject_if (not (is_listed allowed key)) unknown_action
  value ← require_object v
  check_parameters allowed rest

unfoldable pub all_listed : List String → List String → Result (Unit {0})
unfolding is_listed
all_listed allowed [] = ok tt
all_listed allowed (x ∷ xs) = do
  reject_if (not (is_listed allowed x)) unknown_action
  all_listed allowed xs

unfoldable pub check_completion : List String → Members → Result (Unit {0})
unfolding reject_unknown_fields all_listed get_or
check_completion allowed no_members = ok tt
check_completion allowed completion = do
  reject_unknown_fields completion ("required_success_actions" ∷ [])
  required ←
      require_string_list true (get_or (array no_items) "required_success_actions" completion)
  all_listed allowed required

abbrev pub is_null : Json → Bool
is_null null = true
is_null v = false

-- `None` where the field is missing; the field's own null is refused
unfoldable pub read_revision : Members → Result (Option ℕ)
unfolding has get_or
read_revision raw =
    if has "expected_revision" raw
    then (do n ← require_sequence_value 0 (field "expected_revision" raw); ok (some n))
    else ok none

abbrev pub submit_fields : List String
submit_fields =
    "schema_version" ∷ "request_id" ∷ "ex_session" ∷ "task_id" ∷ "step_id" ∷ "goal_id"
    ∷ "goal_text_en" ∷ "allowed_actions" ∷ "parameters" ∷ "completion" ∷ "lease_ms"
    ∷ "expected_revision" ∷ []

abbrev pub required_fields : List String
required_fields =
    "request_id" ∷ "ex_session" ∷ "task_id" ∷ "step_id" ∷ "goal_id" ∷ "goal_text_en" ∷ "lease_ms"
    ∷ []

unfoldable pub parse_submit : Json → Result GoalSubmit
parse_submit v = do
  raw ← wire_object submit_fields v
  check_version raw
  require_fields required_fields raw
  goal_text ← validate_goal_text (field "goal_text_en" raw)
  allowed ← require_string_list true (get_or (array no_items) "allowed_actions" raw)
  require_ids allowed
  reject_if (has_duplicate allowed) enum_violation
  parameters ← require_object (get_or (object no_members) "parameters" raw)
  check_parameters allowed parameters
  completion ← require_object (get_or (object no_members) "completion" raw)
  check_completion allowed completion
  reject_if (has "expected_revision" raw && is_null (field "expected_revision" raw)) invalid_type
  request_id ← require_id_value (field "request_id" raw)
  ex_session ← require_id_value (field "ex_session" raw)
  task_id ← require_id_value (field "task_id" raw)
  step_id ← require_id_value (field "step_id" raw)
  goal_id ← require_id_value (field "goal_id" raw)
  lease_ms ← require_lease_value (field "lease_ms" raw)
  expected_revision ← read_revision raw
  ok (record {
    request_id = request_id;
    ex_session = ex_session;
    task_id = task_id;
    step_id = step_id;
    goal_id = goal_id;
    goal_text_en = goal_text;
    allowed_actions = allowed;
    parameters = parameters;
    completion = completion;
    lease_ms = lease_ms;
    expected_revision = expected_revision;
  })

-- the last entry, which stands there if there is a revision
abbrev pub revision_members : Option ℕ → Members
revision_members none = no_members
revision_members (some n) = member (some "expected_revision") (number n) no_members

abbrev pub submit_members : GoalSubmit → Members
submit_members g = member (some "schema_version") (number 1) (
    member (some "request_id") (string g.request_id) (
      member (some "ex_session") (string g.ex_session) (
        member (some "task_id") (string g.task_id) (
          member (some "step_id") (string g.step_id) (
            member (some "goal_id") (string g.goal_id) (
              member (some "goal_text_en") (string g.goal_text_en) (
                member (some "allowed_actions") (array (strings g.allowed_actions)) (
                  member (some "parameters") (object g.parameters) (
                    member (some "completion") (object g.completion) (
                      member (some "lease_ms") (number g.lease_ms)
                        (revision_members g.expected_revision)))))))))))

unfoldable pub submit_to_dict : GoalSubmit → Json
unfolding strings
submit_to_dict g = object (submit_members g)
