-- ===== src/Wire/Messages/Goals/Laws.antt =====
-- What the parsers of the goal messages let through, and that what they print parses to it again.
use astrbot_ex.Prelude.{String, ◌≡◌, ◌≤◌, refl, arith, List, [], ◌∷◌, String-discrete}
use astrbot_ex.Prelude.Text.{text_length}
use astrbot_ex.Actions.Error.{ok}
use astrbot_ex.Actions.Checks.{max_sequence, max_id_len}
use astrbot_ex.Decision.Goal.Defs.{GoalCancel, GoalRenew}
use astrbot_ex.Wire.Json.{Json, Members, object, string}
use astrbot_ex.Wire.Budget.{accepted, measure_json_budget, find_non_finite}
use astrbot_ex.Wire.Returns.{Returns, returned, then_returns, any_result}
use astrbot_ex.Wire.Fields.{
  field, get_or, check_input_budget, check_finite, reject_unknown_fields, check_version,
  require_fields,
}
use astrbot_ex.Wire.Fields.Laws.{
  IsId, IsLease, require_id_value_again, require_sequence_value_again, require_lease_value_again,
  optional_text_again, checked-IsId, checked_sequence, checked-IsLease, checked_text,
}
use astrbot_ex.Wire.Messages.Goals.{
  wire_object, cancel_fields, cancel_members, cancel_to_dict, parse_cancel, renew_fields,
  renew_members, renew_to_dict, parse_renew,
}

pub record IsCancel (c : GoalCancel) : Type 0 where
  pub request_id : IsId c.request_id
  pub ex_session : IsId c.ex_session
  pub goal_id : IsId c.goal_id
  pub goal_revision : c.goal_revision ≤ max_sequence
  pub reason_code : text_length c.reason_code ≤ max_id_len

pub record IsRenew (r : GoalRenew) : Type 0 where
  pub request_id : IsId r.request_id
  pub ex_session : IsId r.ex_session
  pub goal_id : IsId r.goal_id
  pub goal_revision : r.goal_revision ≤ max_sequence
  pub lease_ms : IsLease r.lease_ms

pub wire_again :
    (fields : List String) (ms : Members)
    → measure_json_budget (object ms) ≡ accepted
    → reject_unknown_fields ms fields ≡ ok tt
    → require_fields ("schema_version" ∷ []) ms ≡ ok tt
    → wire_object fields (object ms) ≡ ok ms
unfolding wire_object check_input_budget check_finite find_non_finite
wire_again fields ms b u r = rw (b, u, r) refl

cancel_known : (c : GoalCancel) → reject_unknown_fields (cancel_members c) cancel_fields ≡ ok tt
unfolding reject_unknown_fields String-discrete
cancel_known c = refl

cancel_version : (c : GoalCancel) → check_version (cancel_members c) ≡ ok tt
unfolding check_version String-discrete
cancel_version c = refl

cancel_required :
    (c : GoalCancel) → require_fields ("schema_version" ∷ []) (cancel_members c) ≡ ok tt
unfolding require_fields String-discrete
cancel_required c = refl

-- A well-formed cancellation whose dictionary is within the budget is parsed back from it.
pub parse_cancel-cancel_to_dict :
    (c : GoalCancel)
    → IsCancel c
    → measure_json_budget (cancel_to_dict c) ≡ accepted
    → parse_cancel (cancel_to_dict c) ≡ ok c
unfolding parse_cancel cancel_to_dict get_or String-discrete
parse_cancel-cancel_to_dict c h b =
    rw
      (
        wire_again cancel_fields (cancel_members c) b (cancel_known c) (cancel_required c),
        cancel_version c,
      )
      (rw
        (
          require_id_value_again c.request_id h.request_id,
          require_id_value_again c.ex_session h.ex_session,
          require_id_value_again c.goal_id h.goal_id,
          require_sequence_value_again 0 c.goal_revision (omega arith) h.goal_revision,
          optional_text_again c.reason_code h.reason_code,
        )
        refl)

renew_known : (r : GoalRenew) → reject_unknown_fields (renew_members r) renew_fields ≡ ok tt
unfolding reject_unknown_fields String-discrete
renew_known r = refl

renew_version : (r : GoalRenew) → check_version (renew_members r) ≡ ok tt
unfolding check_version String-discrete
renew_version r = refl

renew_required : (r : GoalRenew) → require_fields ("schema_version" ∷ []) (renew_members r) ≡ ok tt
unfolding require_fields String-discrete
renew_required r = refl

-- A well-formed renewal whose dictionary is within the budget is parsed back from it.
pub parse_renew-renew_to_dict :
    (r : GoalRenew)
    → IsRenew r
    → measure_json_budget (renew_to_dict r) ≡ accepted
    → parse_renew (renew_to_dict r) ≡ ok r
unfolding parse_renew renew_to_dict get_or String-discrete
parse_renew-renew_to_dict r h b =
    rw
      (
        wire_again renew_fields (renew_members r) b (renew_known r) (renew_required r),
        renew_version r,
      )
      (rw
        (
          require_id_value_again r.request_id h.request_id,
          require_id_value_again r.ex_session h.ex_session,
          require_id_value_again r.goal_id h.goal_id,
          require_sequence_value_again 0 r.goal_revision (omega arith) h.goal_revision,
          require_lease_value_again r.lease_ms h.lease_ms,
        )
        refl)

pub checked-IsCancel : (v : Json) → Returns IsCancel (parse_cancel v)
unfolding parse_cancel
checked-IsCancel v = then_returns (any_result (wire_object cancel_fields v)) λ raw _.
    then_returns (any_result (check_version raw)) λ _ _.
      then_returns (checked-IsId (field "request_id" raw)) λ request_id p1.
        then_returns (checked-IsId (field "ex_session" raw)) λ ex_session p2.
          then_returns (checked-IsId (field "goal_id" raw)) λ goal_id p3.
            then_returns (checked_sequence (field "goal_revision" raw)) λ goal_revision p4.
              then_returns (checked_text (get_or (string "") "reason_code" raw)) λ reason_code p5.
                returned _ (record {
                  request_id = p1;
                  ex_session = p2;
                  goal_id = p3;
                  goal_revision = p4;
                  reason_code = p5;
                })

pub checked-IsRenew : (v : Json) → Returns IsRenew (parse_renew v)
unfolding parse_renew
checked-IsRenew v = then_returns (any_result (wire_object renew_fields v)) λ raw _.
    then_returns (any_result (check_version raw)) λ _ _.
      then_returns (checked-IsId (field "request_id" raw)) λ request_id p1.
        then_returns (checked-IsId (field "ex_session" raw)) λ ex_session p2.
          then_returns (checked-IsId (field "goal_id" raw)) λ goal_id p3.
            then_returns (checked_sequence (field "goal_revision" raw)) λ goal_revision p4.
              then_returns (checked-IsLease (field "lease_ms" raw)) λ lease_ms p5.
                returned _ (record {
                  request_id = p1;
                  ex_session = p2;
                  goal_id = p3;
                  goal_revision = p4;
                  lease_ms = p5;
                })
