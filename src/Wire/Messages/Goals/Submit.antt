-- ===== src/Wire/Messages/Goals/Submit.antt =====
-- What `GoalSubmit.parse` lets through, and that what `to_dict` prints parses to it again.
use astrbot_ex.Prelude.{
  ℕ, ◌≡◌, ◌≤◌, refl, arith, Bool, true, false, Option, none, some, [], ◌∷◌, String-discrete, ◌&&◌,
  inl, inr, Bool-cases,
}
use astrbot_ex.Prelude.Text.{text_length}
use astrbot_ex.Actions.Error.{ok, reject_if, enum_violation, invalid_type}
use astrbot_ex.Actions.Checks.{max_sequence}
use astrbot_ex.Wire.Json.{Json, Members, object, array, no_items, no_members}
use astrbot_ex.Wire.Budget.{accepted, measure_json_budget}
use astrbot_ex.Wire.Returns.{Returns, returned, raised, then_returns, any_result, checked}
use astrbot_ex.Wire.Fields.{
  field, get_or, has, require_object, has_duplicate, require_ids, reject_unknown_fields,
  check_version, require_fields,
}
use astrbot_ex.Wire.Fields.Laws.{
  IsText, IsId, IsLease, AreTexts, require_id_value_again, require_sequence_value_again,
  require_lease_value_again, require_text_value_again, require_string_list_again, checked-IsId,
  checked_sequence, checked-IsLease, checked_limited, checked_string_list,
}
use astrbot_ex.Wire.Messages.Goals.Laws.{wire_again}
use astrbot_ex.Wire.Messages.Goals.{
  wire_object, GoalSubmit, submit_fields, required_fields, submit_members, submit_to_dict,
  parse_submit, validate_goal_text, max_goal_text_len, check_parameters, check_completion,
  read_revision, is_null,
}

abbrev IsRevision : Option ℕ → Type 0
IsRevision none = Unit
IsRevision (some n) = n ≤ max_sequence

pub record IsSubmit (g : GoalSubmit) : Type 0 where
  pub request_id : IsId g.request_id
  pub ex_session : IsId g.ex_session
  pub task_id : IsId g.task_id
  pub step_id : IsId g.step_id
  pub goal_id : IsId g.goal_id
  pub goal_text_en : IsText g.goal_text_en × (text_length g.goal_text_en ≤ max_goal_text_len)
  pub allowed_actions : AreTexts g.allowed_actions
  pub ids : require_ids g.allowed_actions ≡ ok tt
  pub distinct : has_duplicate g.allowed_actions ≡ false
  pub parameters : check_parameters g.allowed_actions g.parameters ≡ ok tt
  pub completion : check_completion g.allowed_actions g.completion ≡ ok tt
  pub lease_ms : IsLease g.lease_ms
  pub expected_revision : IsRevision g.expected_revision

submit_known :
    (g : GoalSubmit) (e : Option ℕ)
    → g.expected_revision ≡ e
    → reject_unknown_fields (submit_members g) submit_fields ≡ ok tt
unfolding reject_unknown_fields String-discrete
submit_known g none h = rw h refl
submit_known g (some n) h = rw h refl

submit_version : (g : GoalSubmit) → check_version (submit_members g) ≡ ok tt
unfolding check_version String-discrete
submit_version g = refl

submit_named : (g : GoalSubmit) → require_fields ("schema_version" ∷ []) (submit_members g) ≡ ok tt
unfolding require_fields String-discrete
submit_named g = refl

submit_required : (g : GoalSubmit) → require_fields required_fields (submit_members g) ≡ ok tt
unfolding require_fields String-discrete
submit_required g = refl

-- the revision is read back, and is not null
revision_again :
    (g : GoalSubmit) (e : Option ℕ)
    → g.expected_revision ≡ e
    → IsRevision e
    → read_revision (submit_members g) ≡ ok e
unfolding read_revision String-discrete
revision_again g none h r = rw h refl
revision_again g (some n) h r = rw h (rw (require_sequence_value_again 0 n (omega arith) r) refl)

revision_given :
    (g : GoalSubmit) (e : Option ℕ)
    → g.expected_revision ≡ e
    → (has "expected_revision" (submit_members g)
        && is_null (field "expected_revision" (submit_members g)))
      ≡ false
unfolding has get_or String-discrete
revision_given g none h = rw h refl
revision_given g (some n) h = rw h refl

-- A well-formed submission whose dictionary is within the budget is parsed back from it.
pub parse_submit-submit_to_dict :
    (g : GoalSubmit)
    → IsSubmit g
    → measure_json_budget (submit_to_dict g) ≡ accepted
    → parse_submit (submit_to_dict g) ≡ ok g
unfolding parse_submit submit_to_dict validate_goal_text get_or require_object String-discrete
parse_submit-submit_to_dict g h b =
    rw
      (
        wire_again submit_fields (submit_members g) b (submit_known g g.expected_revision refl)
            (submit_named g),
        submit_version g,
        submit_required g,
      )
      (rw
        (
          require_text_value_again max_goal_text_len g.goal_text_en h.goal_text_en.0
              h.goal_text_en.1,
          require_string_list_again g.allowed_actions h.allowed_actions,
          h.ids,
          h.distinct,
          h.parameters,
          h.completion,
          revision_given g g.expected_revision refl,
        )
        (rw
          (
            require_id_value_again g.request_id h.request_id,
            require_id_value_again g.ex_session h.ex_session,
            require_id_value_again g.task_id h.task_id,
            require_id_value_again g.step_id h.step_id,
            require_id_value_again g.goal_id h.goal_id,
            require_lease_value_again g.lease_ms h.lease_ms,
            revision_again g g.expected_revision refl h.expected_revision,
          )
          refl))

checked-IsRevision : (raw : Members) → Returns IsRevision (read_revision raw)
unfolding read_revision
checked-IsRevision raw = elim (Bool-cases (has "expected_revision" raw)) [
  | inl e ↦
      rw e
        (then_returns (checked_sequence (field "expected_revision" raw)) λ n p. returned (some n) p)
  | inr e ↦ rw e (returned none tt)
]

not_rejected : (t : Bool) → Returns (λ done. t ≡ false) (reject_if t enum_violation)
not_rejected true = raised _
not_rejected false = returned tt refl

pub checked-IsSubmit : (v : Json) → Returns IsSubmit (parse_submit v)
unfolding parse_submit validate_goal_text
checked-IsSubmit v = then_returns (any_result (wire_object submit_fields v)) λ raw _.
    then_returns (any_result (check_version raw)) λ _ _.
      then_returns (any_result (require_fields required_fields raw)) λ _ _.
        then_returns (checked_limited max_goal_text_len (field "goal_text_en" raw)) λ goal_text p1.
          then_returns (checked_string_list true (get_or (array no_items) "allowed_actions" raw))
            λ allowed p2. then_returns (checked (require_ids allowed)) λ _ p3.
              then_returns (not_rejected (has_duplicate allowed)) λ _ p4.
                then_returns
                  (any_result (require_object (get_or (object no_members) "parameters" raw)))
                  λ parameters _.
                    then_returns (checked (check_parameters allowed parameters)) λ _ p5.
                      then_returns
                        (any_result (require_object (get_or (object no_members) "completion" raw)))
                        λ completion _.
                          then_returns (checked (check_completion allowed completion)) λ _ p6.
                            then_returns
                              (any_result (
                                reject_if
                                  (has "expected_revision" raw
                                    && is_null (field "expected_revision" raw))
                                  invalid_type))
                              λ _ _.
                                then_returns (checked-IsId (field "request_id" raw))
                                  λ request_id p7.
                                    then_returns (checked-IsId (field "ex_session" raw))
                                      λ ex_session p8.
                                        then_returns (checked-IsId (field "task_id" raw))
                                          λ task_id p9.
                                            then_returns (checked-IsId (field "step_id" raw))
                                              λ step_id p10.
                                                then_returns (checked-IsId (field "goal_id" raw))
                                                  λ goal_id p11.
                                                    then_returns
                                                      (checked-IsLease (field "lease_ms" raw))
                                                      λ lease_ms p12.
                                                        then_returns (checked-IsRevision raw)
                                                          λ expected_revision p13.
                                                            returned _ (record {
                                                            request_id = p7;
                                                            ex_session = p8;
                                                            task_id = p9;
                                                            step_id = p10;
                                                            goal_id = p11;
                                                            goal_text_en = p1;
                                                            allowed_actions = p2;
                                                            ids = p3;
                                                            distinct = p4;
                                                            parameters = p5;
                                                            completion = p6;
                                                            lease_ms = p12;
                                                            expected_revision = p13;
                                                            })
