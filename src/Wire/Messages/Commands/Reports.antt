-- ===== src/Wire/Messages/Commands/Reports.antt =====
-- What `ActionEvent.parse` lets through, the stop evidence of a canceled action included, and that what
-- `to_dict` prints parses to it again.
use astrbot_ex.Prelude.{◌≡◌, ◌≤◌, refl, arith, Bool, true, false, not, none, String-discrete}
use astrbot_ex.Prelude.Text.{text_length}
use astrbot_ex.Actions.Error.{ok, reject_if, missing_field, enum_violation}
use astrbot_ex.Actions.Checks.{max_sequence, max_id_len}
use astrbot_ex.Actions.Command.{require_text}
use astrbot_ex.Actions.Status.{Status, admitted, canceled}
use astrbot_ex.Wire.Json.{Json, Members, object, string, boolean, no_members}
use astrbot_ex.Wire.Budget.{accepted, measure_json_budget}
use astrbot_ex.Wire.Returns.{
  Returns, returned, raised, then_returns, of_result, of_returns, any_result, checked,
}
use astrbot_ex.Wire.Fields.{
  field, get_or, has, require_object, require_bool, require_text_value, require_sequence_value,
  check_input_budget, check_finite, reject_unknown_fields,
}
use astrbot_ex.Wire.Fields.Laws.{
  IsId, require_id_value_again, require_sequence_value_again, require_sequence_value_bounds,
  optional_text_again, checked-IsId, checked_sequence, checked_text,
}
use astrbot_ex.Wire.Messages.Commands.{
  ActionEvent, event_fields, event_members, event_to_dict, parse_event, status_name, status_of,
  check_stop, check_evidence, validate_stop_evidence,
}

pub record IsEvent (e : ActionEvent) : Type 0 where
  pub event_id : IsId e.event_id
  pub event_seq : (1 ≤ e.event_seq) × (e.event_seq ≤ max_sequence)
  pub ex_session : IsId e.ex_session
  pub task_id : IsId e.task_id
  pub goal_id : IsId e.goal_id
  pub goal_revision : e.goal_revision ≤ max_sequence
  pub command_id : IsId e.command_id
  pub owner : IsId e.owner
  pub stop : check_stop e.status e.details ≡ ok tt
  pub reason_code : text_length e.reason_code ≤ max_id_len
  pub details : check_finite (object e.details) ≡ ok tt

checked_first :
    (v : Json) → Returns (λ n. (1 ≤ n) × (n ≤ max_sequence)) (require_sequence_value 1 v)
checked_first v = of_result (require_sequence_value 1 v) (require_sequence_value_bounds 1 v)

pub checked-IsEvent : (v : Json) → Returns IsEvent (parse_event v)
unfolding parse_event
checked-IsEvent v = then_returns (any_result (require_object v)) λ raw _.
    then_returns (any_result (check_input_budget (object raw))) λ _ _.
      then_returns (any_result (reject_unknown_fields raw event_fields)) λ _ _.
        then_returns (any_result (require_text_value none (field "status" raw))) λ name _.
          then_returns (any_result (status_of name)) λ status _.
            then_returns (any_result (require_object (get_or (object no_members) "details" raw)))
              λ details _. then_returns (checked (check_stop status details)) λ _ stop.
                then_returns (checked (check_finite (object details))) λ _ finite.
                  then_returns (checked-IsId (field "event_id" raw)) λ event_id p1.
                    then_returns (checked_first (field "event_seq" raw)) λ event_seq p2.
                      then_returns (checked-IsId (field "ex_session" raw)) λ ex_session p3.
                        then_returns (checked-IsId (field "task_id" raw)) λ task_id p4.
                          then_returns (checked-IsId (field "goal_id" raw)) λ goal_id p5.
                            then_returns (checked_sequence (field "goal_revision" raw))
                              λ goal_revision p6.
                                then_returns (checked-IsId (field "command_id" raw))
                                  λ command_id p7.
                                    then_returns (checked-IsId (field "owner" raw)) λ owner p8.
                                      then_returns
                                        (checked_text (get_or (string "") "reason_code" raw))
                                        λ reason_code p9. returned _ (record {
                                          event_id = p1;
                                          event_seq = p2;
                                          ex_session = p3;
                                          task_id = p4;
                                          goal_id = p5;
                                          goal_revision = p6;
                                          command_id = p7;
                                          owner = p8;
                                          stop = stop;
                                          reason_code = p9;
                                          details = finite;
                                        })

status_text : (s : Status) → require_text_value none (string (status_name s)) ≡ ok (status_name s)
unfolding require_text_value require_text String-discrete
status_text admitted = refl
status_text s = refl

status_known : (s : Status) → status_of (status_name s) ≡ ok s
unfolding status_of String-discrete
status_known admitted = refl
status_known s = refl

event_known : (e : ActionEvent) → reject_unknown_fields (event_members e) event_fields ≡ ok tt
unfolding reject_unknown_fields String-discrete
event_known e = refl

pub parse_event-event_to_dict :
    (e : ActionEvent)
    → IsEvent e
    → measure_json_budget (event_to_dict e) ≡ accepted
    → parse_event (event_to_dict e) ≡ ok e
unfolding parse_event event_to_dict get_or check_input_budget require_object String-discrete
parse_event-event_to_dict e h b =
    rw (b, event_known e)
      (rw (status_text e.status, status_known e.status, h.stop, h.details)
        (rw
          (
            require_id_value_again e.event_id h.event_id,
            require_sequence_value_again 1 e.event_seq h.event_seq.0 h.event_seq.1,
            require_id_value_again e.ex_session h.ex_session,
            require_id_value_again e.task_id h.task_id,
            require_id_value_again e.goal_id h.goal_id,
            require_sequence_value_again 0 e.goal_revision (omega arith) h.goal_revision,
            require_id_value_again e.command_id h.command_id,
            require_id_value_again e.owner h.owner,
            optional_text_again e.reason_code h.reason_code,
          )
          refl))

-- the evidence that a stop needs
abbrev pub HasStopped : Members → Type 0
HasStopped details =
    (evidence : Members) × (field "stop_evidence" details ≡ object evidence)
    × (field "stopped" evidence ≡ boolean true)

object_of : (v : Json) → Returns (λ ms. v ≡ object ms) (require_object v)
unfolding require_object
object_of (object ms) = returned ms refl
object_of v = raised _

boolean_of : (v : Json) → Returns (λ b. v ≡ boolean b) (require_bool v)
unfolding require_bool
boolean_of (boolean b) = returned b refl
boolean_of v = raised _

is_stopped : (b : Bool) → Returns (λ done. b ≡ true) (reject_if (not b) enum_violation)
is_stopped true = returned tt refl
is_stopped false = raised _

stop_proved :
    (details : Members) → Returns (λ done. HasStopped details) (validate_stop_evidence details)
unfolding validate_stop_evidence
stop_proved details =
    then_returns (any_result (reject_if (not (has "stop_evidence" details)) missing_field)) λ _ _.
      then_returns (object_of (field "stop_evidence" details)) λ evidence p.
        then_returns (any_result (reject_if (not (has "stopped" evidence)) missing_field)) λ _ _.
          then_returns (boolean_of (field "stopped" evidence)) λ stopped q.
            then_returns (is_stopped stopped)
              λ _ r. of_result (check_evidence evidence) (λ done e. (evidence, p, rw q (rw r refl)))

-- A report that an action was canceled is only parsed with the evidence that it has stopped.
pub canceled-HasStopped :
    (v : Json) (e : ActionEvent) → parse_event v ≡ ok e → e.status ≡ canceled → HasStopped e.details
canceled-HasStopped v e h c =
    let w = of_returns (parse_event v) e (checked-IsEvent v) h in
    of_returns (validate_stop_evidence e.details) tt (stop_proved e.details) (rw c at w.stop)
