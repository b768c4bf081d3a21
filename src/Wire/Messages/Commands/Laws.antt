-- ===== src/Wire/Messages/Commands/Laws.antt =====
-- What a parsed command is, and that its dictionary parses to it again.
use astrbot_ex.Prelude.{◌≡◌, ◌≤◌, refl, arith, none, String-discrete}
use astrbot_ex.Actions.Error.{ok}
use astrbot_ex.Actions.Checks.{max_sequence}
use astrbot_ex.Actions.Command.{require_text, Operation, start, cancel, pause, resume}
use astrbot_ex.Wire.Json.{Json, object, string}
use astrbot_ex.Wire.Budget.{accepted, measure_json_budget}
use astrbot_ex.Wire.Fields.{
  require_object, field, get_or, require_text_value, check_input_budget, check_finite,
  reject_unknown_fields, check_version,
}
use astrbot_ex.Wire.Fields.Laws.{
  checked-IsId, checked_sequence, checked-IsLease, IsId, IsLease, require_id_value_again,
  require_sequence_value_again, require_lease_value_again,
}
use astrbot_ex.Wire.Returns.{Returns, returned, then_returns, of_returns, any_result, checked}
use astrbot_ex.Wire.Messages.Commands.{
  ActionCommand, command_members, command_to_dict, parse_command, operation_of, operation_name,
  command_fields, require_params,
}

-- the values that `parse` lets through
pub record IsCommand (c : ActionCommand) : Type 0 where
  pub command_id : IsId c.command_id
  pub ex_session : IsId c.ex_session
  pub goal_id : IsId c.goal_id
  pub goal_revision : c.goal_revision ≤ max_sequence
  pub decision_id : IsId c.decision_id
  pub owner : IsId c.owner
  pub plugin_generation : c.plugin_generation ≤ max_sequence
  pub action_id : IsId c.action_id
  pub params : check_finite (object c.params) ≡ ok tt
  pub lease_ms : IsLease c.lease_ms

fields_known :
    (c : ActionCommand) → reject_unknown_fields (command_members c) command_fields ≡ ok tt
unfolding reject_unknown_fields String-discrete
fields_known c = refl

version_known : (c : ActionCommand) → check_version (command_members c) ≡ ok tt
unfolding check_version String-discrete
version_known c = refl

operation_text :
    (o : Operation) → require_text_value none (string (operation_name o)) ≡ ok (operation_name o)
unfolding require_text_value require_text String-discrete
operation_text start = refl
operation_text cancel = refl
operation_text pause = refl
operation_text resume = refl

operation_known : (o : Operation) → operation_of (operation_name o) ≡ ok o
unfolding operation_of String-discrete
operation_known start = refl
operation_known cancel = refl
operation_known pause = refl
operation_known resume = refl

pub parse_command-command_to_dict :
    (c : ActionCommand)
    → IsCommand c
    → measure_json_budget (command_to_dict c) ≡ accepted
    → parse_command (command_to_dict c) ≡ ok c
unfolding parse_command command_to_dict get_or check_input_budget String-discrete
parse_command-command_to_dict c h b =
    rw (b, fields_known c, version_known c)
      (rw (operation_text c.operation, operation_known c.operation, h.params)
        (rw
          (
            require_id_value_again c.command_id h.command_id,
            require_id_value_again c.ex_session h.ex_session,
            require_id_value_again c.goal_id h.goal_id,
            require_sequence_value_again 0 c.goal_revision (omega arith) h.goal_revision,
            require_id_value_again c.decision_id h.decision_id,
            require_id_value_again c.owner h.owner,
            require_sequence_value_again 0 c.plugin_generation (omega arith) h.plugin_generation,
            require_id_value_again c.action_id h.action_id,
            require_lease_value_again c.lease_ms h.lease_ms,
          )
          refl))

pub checked-IsCommand : (v : Json) → Returns IsCommand (parse_command v)
unfolding parse_command
checked-IsCommand v = then_returns (any_result (require_object v)) λ raw _.
    then_returns (any_result (check_input_budget (object raw))) λ _ _.
      then_returns (any_result (reject_unknown_fields raw command_fields)) λ _ _.
        then_returns (any_result (check_version raw)) λ _ _.
          then_returns (any_result (require_text_value none (field "operation" raw))) λ name _.
            then_returns (any_result (operation_of name)) λ operation _.
              then_returns (any_result (require_params (field "params" raw))) λ params _.
                then_returns (checked (check_finite (object params))) λ _ finite.
                  then_returns (checked-IsId (field "command_id" raw)) λ command_id p1.
                    then_returns (checked-IsId (field "ex_session" raw)) λ ex_session p2.
                      then_returns (checked-IsId (field "goal_id" raw)) λ goal_id p3.
                        then_returns (checked_sequence (field "goal_revision" raw))
                          λ goal_revision p4.
                            then_returns (checked-IsId (field "decision_id" raw)) λ decision_id p5.
                              then_returns (checked-IsId (field "owner" raw)) λ owner p6.
                                then_returns (checked_sequence (field "plugin_generation" raw))
                                  λ plugin_generation p7.
                                    then_returns (checked-IsId (field "action_id" raw))
                                      λ action_id p8.
                                        then_returns (checked-IsLease (field "lease_ms" raw))
                                          λ lease_ms p9. returned _ (record {
                                            command_id = p1;
                                            ex_session = p2;
                                            goal_id = p3;
                                            goal_revision = p4;
                                            decision_id = p5;
                                            owner = p6;
                                            plugin_generation = p7;
                                            action_id = p8;
                                            params = finite;
                                            lease_ms = p9;
                                          })

-- A command that was parsed has ids that are stripped, not empty and of at most 256 characters,
-- numbers within their ranges, and parameters within the budget.
pub parse_command-IsCommand : (v : Json) (c : ActionCommand) → parse_command v ≡ ok c → IsCommand c
parse_command-IsCommand v c e = of_returns (parse_command v) c (checked-IsCommand v) e
