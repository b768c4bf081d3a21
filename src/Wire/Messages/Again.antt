-- ===== src/Wire/Messages/Again.antt =====
-- What was parsed, printed and parsed once more.
use astrbot_ex.Prelude.{◌≡◌, refl, String, List}
use astrbot_ex.Actions.Error.{
  ErrorCode, Result, ok, raise, contract, ◌>>◌, non_finite_number, invalid_type,
}
use astrbot_ex.Wire.Json.{Json, Members, object}
use astrbot_ex.Wire.Budget.{
  Verdict, accepted, rejected, out_of_fuel, measure_json_budget, find_non_finite,
}
use astrbot_ex.Wire.Fields.{of_verdict, check_input_budget, check_finite, require_object}
use astrbot_ex.Wire.Budget.Fits.{Fits}
use astrbot_ex.Wire.Budget.Fits.Exact.{measure_json_budget-Fits}
use astrbot_ex.Wire.Returns.{of_returns}
use astrbot_ex.Decision.Goal.Defs.{GoalCancel, GoalRenew}
use astrbot_ex.Wire.Messages.Commands.{
  ActionCommand, ActionEvent, parse_command, command_to_dict, parse_event, event_to_dict,
}
use astrbot_ex.Wire.Messages.Commands.Laws.{
  IsCommand, checked-IsCommand, parse_command-command_to_dict,
}
use astrbot_ex.Wire.Messages.Commands.Reports.{checked-IsEvent, parse_event-event_to_dict}
use astrbot_ex.Wire.Messages.Goals.{
  GoalSubmit, parse_submit, submit_to_dict, parse_cancel, cancel_to_dict, parse_renew,
  renew_to_dict, wire_object, check_local, submit_fields, submit_members,
}
use astrbot_ex.Wire.Messages.Goals.Laws.{
  checked-IsCancel, checked-IsRenew, parse_cancel-cancel_to_dict, parse_renew-renew_to_dict,
}
use astrbot_ex.Wire.Messages.Goals.Submit.{IsSubmit, checked-IsSubmit, parse_submit-submit_to_dict}

within_budget : (v : Json) → Fits v → measure_json_budget v ≡ accepted
within_budget v f = (measure_json_budget-Fits v).1.1 f

abbrev refusal : ErrorCode → Result Members
refusal code = raise (contract code)

refused_once : (code : ErrorCode) → (check_local (rejected code) >> refusal code) ≡ refusal code
refused_once non_finite_number = refl
refused_once invalid_type = refl
refused_once code = refl

-- `_wire_object` refuses what the budget refuses, with its code.
pub wire_refused :
    (fields : List String) (ms : Members) (code : ErrorCode)
    → measure_json_budget (object ms) ≡ rejected code
    → wire_object fields (object ms) ≡ raise (contract code)
unfolding wire_object require_object check_input_budget check_finite find_non_finite
wire_refused fields ms code b = rw b (refused_once code)

command_by_verdict :
    (c : ActionCommand)
    → IsCommand c
    → (d : Verdict) → measure_json_budget (command_to_dict c) ≡ d
    → parse_command (command_to_dict c) ≡ (of_verdict d >> ok c)
unfolding parse_command command_to_dict check_input_budget require_object
command_by_verdict c h accepted b = parse_command-command_to_dict c h b
command_by_verdict c h (rejected code) b = rw b refl
command_by_verdict c h out_of_fuel b = rw b refl

-- A command that was parsed is parsed again from its own dictionary: if the dictionary is within the
-- budget, the same command comes back, and if not, parsing raises the code of the budget.
pub command_again :
    (v : Json) (c : ActionCommand)
    → parse_command v ≡ ok c
    → parse_command (command_to_dict c) ≡ (check_input_budget (command_to_dict c) >> ok c)
unfolding check_input_budget
command_again v c h =
    command_by_verdict c (of_returns (parse_command v) c (checked-IsCommand v) h)
      (measure_json_budget (command_to_dict c)) refl

-- An event that was parsed is parsed again from its own dictionary, if that fits the budget, and is
-- the same.
pub event_again :
    (v : Json) (e : ActionEvent)
    → parse_event v ≡ ok e
    → Fits (event_to_dict e)
    → parse_event (event_to_dict e) ≡ ok e
event_again v e h f =
    parse_event-event_to_dict e (of_returns (parse_event v) e (checked-IsEvent v) h)
      (within_budget (event_to_dict e) f)

submit_by_verdict :
    (g : GoalSubmit)
    → IsSubmit g
    → (d : Verdict) → measure_json_budget (submit_to_dict g) ≡ d
    → parse_submit (submit_to_dict g) ≡ (of_verdict d >> ok g)
unfolding parse_submit submit_to_dict
submit_by_verdict g h accepted b = parse_submit-submit_to_dict g h b
submit_by_verdict g h (rejected code) b =
    rw (wire_refused submit_fields (submit_members g) code b) refl
submit_by_verdict g h out_of_fuel b = absurd ((measure_json_budget-Fits (submit_to_dict g)).0 b)

-- A submission that was parsed is parsed again from its own dictionary: if the dictionary is within
-- the budget, the same submission comes back, and if not, parsing raises the code of the budget.
pub submit_again :
    (v : Json) (g : GoalSubmit)
    → parse_submit v ≡ ok g
    → parse_submit (submit_to_dict g) ≡ (check_input_budget (submit_to_dict g) >> ok g)
unfolding check_input_budget
submit_again v g h =
    submit_by_verdict g (of_returns (parse_submit v) g (checked-IsSubmit v) h)
      (measure_json_budget (submit_to_dict g)) refl

pub cancel_again :
    (v : Json) (c : GoalCancel)
    → parse_cancel v ≡ ok c
    → Fits (cancel_to_dict c)
    → parse_cancel (cancel_to_dict c) ≡ ok c
cancel_again v c h f =
    parse_cancel-cancel_to_dict c (of_returns (parse_cancel v) c (checked-IsCancel v) h)
      (within_budget (cancel_to_dict c) f)

pub renew_again :
    (v : Json) (r : GoalRenew)
    → parse_renew v ≡ ok r
    → Fits (renew_to_dict r)
    → parse_renew (renew_to_dict r) ≡ ok r
renew_again v r h f =
    parse_renew-renew_to_dict r (of_returns (parse_renew v) r (checked-IsRenew v) h)
      (within_budget (renew_to_dict r) f)
