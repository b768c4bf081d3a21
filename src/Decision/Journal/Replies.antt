-- ===== src/Decision/Journal/Replies.antt =====
-- What `EventsReply.parse` answers to a reply whose events are well-formed.
use astrbot_ex.Prelude.{
  ◌+◌, ◌≤◌, ◌<◌, ◌≡◌, refl, Bool, true, false, not, ◌&&◌, List, [], ◌∷◌, arith, String-discrete,
  ltb, ◌=?◌, if◌then◌else◌,
}
use astrbot_ex.Actions.Error.{ok, ◌>>◌}
use astrbot_ex.Actions.Checks.{max_sequence}
use astrbot_ex.Actions.Command.{require_text, require_id}
use astrbot_ex.Actions.Status.{Status, admitted, canceled}
use astrbot_ex.Wire.Json.{Members, string}
use astrbot_ex.Wire.Budget
use astrbot_ex.Wire.Budget.{
  measure_json_budget, find_non_finite, comma, max_validation_bytes, max_validation_nodes,
}
use astrbot_ex.Wire.Budget.Fits.{
  Fits, json_size, items_size, inner, nodes_items, height, height_items, is_json, are_json,
}
use astrbot_ex.Wire.Budget.Fits.Exact.{measure_json_budget-Fits}
use astrbot_ex.Wire.Fields.{
  get_or, has, check_input_budget, check_finite, require_object, require_id_value, is_listed,
  reject_unknown_fields, check_version, require_fields, of_verdict, require_bool,
}
use astrbot_ex.Wire.Fields.Laws.{
  IsId, require_id_value_again, require_sequence_value_again, optional_text_again,
}
use astrbot_ex.Wire.Messages.Commands.{
  ActionEvent, event_to_dict, event_members, event_fields, status_name, check_stop,
  validate_stop_evidence,
}
use astrbot_ex.Wire.Messages.Commands.Reports.{IsEvent}
use astrbot_ex.Wire.Messages.Goals.Laws.{wire_again}
use astrbot_ex.Wire.Messages.Again.{wire_refused}
use astrbot_ex.Wire.Messages.Feedback.{feedback_statuses}
use astrbot_ex.Decision.Journal.Pages.{
  Reply, check_event, check_events, event_items, required_event_fields, reply_fields, reply_members,
  reply_to_dict, check_reply, check_order, is_empty,
}

status_again : (s : Status) → require_id_value (string (status_name s)) ≡ ok (status_name s)
unfolding require_id_value require_id require_text String-discrete
status_again admitted = refl
status_again s = refl

status_listed : (s : Status) → is_listed feedback_statuses (status_name s) ≡ true
unfolding is_listed String-discrete
status_listed admitted = refl
status_listed s = refl

stop_again :
    (s : Status) (details : Members)
    → check_stop s details ≡ ok tt
    → (if status_name s =? "canceled" then validate_stop_evidence details else ok tt) ≡ ok tt
unfolding String-discrete
stop_again canceled details h = h
stop_again s details h = refl

event_known : (e : ActionEvent) → reject_unknown_fields (event_members e) event_fields ≡ ok tt
unfolding reject_unknown_fields String-discrete
event_known e = refl

event_required : (e : ActionEvent) → require_fields required_event_fields (event_members e) ≡ ok tt
unfolding require_fields has String-discrete
event_required e = refl

event_passes :
    (e : ActionEvent)
    → IsEvent e
    → measure_json_budget (event_to_dict e) ≡ Budget.accepted
    → check_event (event_to_dict e) ≡ ok tt
unfolding check_event event_to_dict get_or check_input_budget check_finite find_non_finite
    require_object String-discrete
event_passes e h b =
    rw (b, event_known e, event_required e)
      (rw
        (
          require_id_value_again e.event_id h.event_id,
          require_id_value_again e.ex_session h.ex_session,
          require_id_value_again e.task_id h.task_id,
          require_id_value_again e.goal_id h.goal_id,
          require_id_value_again e.command_id h.command_id,
          require_id_value_again e.owner h.owner,
          require_sequence_value_again 1 e.event_seq h.event_seq.0 h.event_seq.1,
          require_sequence_value_again 0 e.goal_revision (omega arith) h.goal_revision,
        )
        (rw
          (
            status_again e.status,
            status_listed e.status,
            optional_text_again e.reason_code h.reason_code,
          )
          (rw (stop_again e.status e.details h.stop) refl)))

abbrev pub AreEvents : List ActionEvent → Type 0
AreEvents [] = Unit
AreEvents (e ∷ es) = IsEvent e × AreEvents es

-- events whose array is within the budget
events_pass :
    (es : List ActionEvent) (started : Bool)
    → AreEvents es
    → are_json (event_items es) ≡ true
    → height_items (event_items es) ≤ 31
    → nodes_items (event_items es) < max_validation_nodes
    → items_size started (event_items es) ≤ max_validation_bytes
    → check_events es ≡ ok tt
unfolding check_events event_items are_json height_items nodes_items items_size
events_pass [] started h j d n b = refl
events_pass (e ∷ es) started h j d n b =
    let fits : Fits (event_to_dict e) = ground arith in
    rw
      (
        event_passes e h.0 ((measure_json_budget-Fits (event_to_dict e)).1.1 fits),
        events_pass es true h.1 (ground arith) (ground arith) (ground arith) (ground arith),
      )
      refl

reply_known : (r : Reply) → reject_unknown_fields (reply_members r) reply_fields ≡ ok tt
unfolding reject_unknown_fields String-discrete
reply_known r = refl

reply_version : (r : Reply) → check_version (reply_members r) ≡ ok tt
unfolding check_version String-discrete
reply_version r = refl

reply_named : (r : Reply) → require_fields ("schema_version" ∷ []) (reply_members r) ≡ ok tt
unfolding require_fields String-discrete
reply_named r = refl

reply_required : (r : Reply) → require_fields reply_fields (reply_members r) ≡ ok tt
unfolding require_fields has String-discrete
reply_required r = refl

reply_events :
    (r : Reply) → AreEvents r.events → Fits (reply_to_dict r) → check_events r.events ≡ ok tt
unfolding reply_to_dict json_size inner height is_json
reply_events r h f =
    events_pass r.events false h (ground arith) (ground arith) (ground arith) (ground arith)

-- what the parser asks of a reply besides the budget
pub record IsReply (r : Reply) : Type 0 where
  pub session : IsId r.ex_session
  pub oldest : r.oldest_available_seq ≤ max_sequence
  pub latest : r.latest_event_seq ≤ max_sequence
  pub range : ltb (r.latest_event_seq + 1) r.oldest_available_seq ≡ false
  pub events : AreEvents r.events
  pub resync : (r.resync_required && not (is_empty r.events)) ≡ false
  pub order : check_order r.ex_session r.oldest_available_seq r.latest_event_seq 0 r.events ≡ ok tt

reply_passes :
    (r : Reply)
    → IsReply r
    → measure_json_budget (reply_to_dict r) ≡ Budget.accepted
    → check_reply r ≡ ok r
unfolding check_reply reply_to_dict get_or require_bool String-discrete
reply_passes r v b =
    rw
      (
        wire_again reply_fields (reply_members r) b (reply_known r) (reply_named r),
        reply_version r,
        reply_required r,
      )
      (rw
        (
          require_sequence_value_again 0 r.oldest_available_seq (omega arith) v.oldest,
          require_sequence_value_again 0 r.latest_event_seq (omega arith) v.latest,
          v.range,
          require_id_value_again r.ex_session v.session,
          reply_events r v.events ((measure_json_budget-Fits (reply_to_dict r)).1.0 b),
        )
        (rw (v.resync, v.order) refl))

reply_by_verdict :
    (r : Reply)
    → IsReply r
    → (d : Budget.Verdict) → measure_json_budget (reply_to_dict r) ≡ d
    → check_reply r ≡ (of_verdict d >> ok r)
unfolding check_reply reply_to_dict
reply_by_verdict r v Budget.accepted b = reply_passes r v b
reply_by_verdict r v (Budget.rejected code) b =
    rw (wire_refused reply_fields (reply_members r) code b) refl
reply_by_verdict r v Budget.out_of_fuel b =
    absurd ((measure_json_budget-Fits (reply_to_dict r)).0 b)

-- Such a reply is accepted as it is if its dictionary is within the budget, and otherwise refused with
-- the code of the budget.
pub check_reply-IsReply :
    (r : Reply) → IsReply r → check_reply r ≡ (check_input_budget (reply_to_dict r) >> ok r)
unfolding check_input_budget
check_reply-IsReply r v = reply_by_verdict r v (measure_json_budget (reply_to_dict r)) refl
