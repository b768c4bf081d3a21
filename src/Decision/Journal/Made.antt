-- ===== src/Decision/Journal/Made.antt =====
-- What the parsers leave of a fact: its sequence and its session.
use astrbot_ex.Prelude.{
  ℕ, String, ◌≡◌, refl, ◌∙◌, arith, false, not, none, List, [], ◌∷◌, ◌=?◌, ltb, String-discrete,
  if◌then◌else◌,
}
use astrbot_ex.Actions.Error.{ok, raise_if, reject_if, runtime_error, enum_violation}
use astrbot_ex.Wire.Json.{Members, object, string, no_members}
use astrbot_ex.Wire.Budget.{find_non_finite}
use astrbot_ex.Wire.Returns.{
  Returns, returned, then_returns, of_result, of_returns, any_result, returns_weaken,
}
use astrbot_ex.Wire.Fields.{
  field, get_or, require_object, require_text_value, require_id_value, require_sequence_value,
  optional_text, is_listed, check_input_budget, check_finite, reject_unknown_fields, check_version,
  require_fields,
}
use astrbot_ex.Wire.Fields.Laws.{IsId, require_id_value_again}
use astrbot_ex.Wire.Messages.Commands.{
  ActionEvent, number, parse_event, event_to_dict, event_fields, status_of, check_stop,
  validate_stop_evidence,
}
use astrbot_ex.Wire.Messages.Commands.Reports.{IsEvent, checked-IsEvent}
use astrbot_ex.Wire.Messages.Goals.{wire_object, check_local}
use astrbot_ex.Wire.Messages.Feedback.{
  Feedback, parse_feedback, feedback_members, feedback_fields, feedback_statuses,
}
use astrbot_ex.Decision.Journal.{SourceKey, Draft, Fact, Outside}
use astrbot_ex.Decision.Journal.Facts.{make_fact, numbered, event_of, event_entries}

number_returned : (minimum n : ℕ) → Returns (λ m. m ≡ n) (require_sequence_value minimum (number n))
unfolding require_sequence_value
number_returned minimum n =
    of_result (require_sequence_value minimum (number n)) (λ m e. ground arith)

id_returned : (s : String) → IsId s → Returns (λ t. t ≡ s) (require_id_value (string s))
id_returned s h = rw (require_id_value_again s h) (returned s refl)

wire_object_same :
    (fields : List String) (ms : Members)
    → Returns (λ raw. raw ≡ ms) (wire_object fields (object ms))
unfolding wire_object
wire_object_same fields ms =
    then_returns (any_result (check_local (find_non_finite (object ms)))) λ _ _.
      then_returns (any_result (check_input_budget (object ms))) λ _ _.
        then_returns (any_result (check_finite (object ms))) λ _ _.
          then_returns (any_result (reject_unknown_fields ms fields)) λ _ _.
            then_returns (any_result (require_fields ("schema_version" ∷ []) ms))
              λ _ _. returned ms refl

-- The entries of the dictionary are read back.
sequence_read :
    (f : Feedback) (raw : Members)
    → raw ≡ feedback_members f
    → Returns (λ n. n ≡ f.event_seq) (require_sequence_value 1 (field "event_seq" raw))
unfolding get_or String-discrete
sequence_read f raw e = rw e (number_returned 1 f.event_seq)

session_read :
    (f : Feedback) (raw : Members)
    → IsId f.ex_session
    → raw ≡ feedback_members f
    → Returns (λ s. s ≡ f.ex_session) (require_id_value (field "ex_session" raw))
unfolding get_or String-discrete
session_read f raw h e = rw e (id_returned f.ex_session h)

abbrev Tagged : String → ℕ → Feedback → Type 0
Tagged session seq f = (f.event_seq ≡ seq) × (f.ex_session ≡ session)

feedback-Tagged :
    (f : Feedback)
    → IsId f.ex_session
    → Returns
        (λ g. Tagged f.ex_session f.event_seq g)
        (parse_feedback (object (feedback_members f)))
unfolding parse_feedback
feedback-Tagged f h = then_returns (wire_object_same feedback_fields (feedback_members f)) λ raw e.
    then_returns (any_result (check_version raw)) λ _ _.
      then_returns (any_result (require_object (get_or (object no_members) "details" raw)))
        λ details _. then_returns (any_result (require_id_value (field "status" raw))) λ status _.
          then_returns
            (any_result (reject_if (not (is_listed feedback_statuses status)) enum_violation))
            λ _ _.
              then_returns
                (any_result
                  (if status =? "canceled" then validate_stop_evidence details else ok tt))
                λ _ _. then_returns (session_read f raw h e) λ ex_session p.
                  then_returns (any_result (require_id_value (field "task_id" raw))) λ task_id _.
                    then_returns (any_result (require_id_value (field "goal_id" raw))) λ goal_id _.
                      then_returns
                        (any_result (require_sequence_value 0 (field "goal_revision" raw)))
                        λ goal_revision _. then_returns (sequence_read f raw e) λ event_seq q.
                          then_returns
                            (any_result (optional_text (get_or (string "") "reason_code" raw)))
                            λ reason_code _. returned _ (q, p)

abbrev Marked : String → ℕ → ActionEvent → Type 0
Marked session seq e = (e.event_seq ≡ seq) × (e.ex_session ≡ session)

event-Marked :
    (event_id command_id owner : String) (f : Feedback)
    → IsId f.ex_session
    → Returns
        (λ e. Marked f.ex_session f.event_seq e)
        (parse_event (event_of event_id command_id owner f))
unfolding parse_event require_object get_or String-discrete
event-Marked event_id command_id owner f h =
    then_returns (any_result (check_input_budget (event_of event_id command_id owner f))) λ _ _.
      then_returns
        (any_result
          (reject_unknown_fields (event_entries event_id command_id owner f) event_fields))
        λ _ _. then_returns (any_result (require_text_value none (string f.status))) λ name _.
          then_returns (any_result (status_of name)) λ status _.
            then_returns (any_result (check_stop status f.details)) λ _ _.
              then_returns (any_result (check_finite (object f.details))) λ _ _.
                then_returns (any_result (require_id_value (string event_id))) λ event_id' _.
                  then_returns (number_returned 1 f.event_seq) λ event_seq q.
                    then_returns (id_returned f.ex_session h) λ ex_session p.
                      then_returns (any_result (require_id_value (string f.task_id))) λ task_id _.
                        then_returns (any_result (require_id_value (string f.goal_id))) λ goal_id _.
                          then_returns
                            (any_result (require_sequence_value 0 (number f.goal_revision)))
                            λ goal_revision _.
                              then_returns (any_result (require_id_value (string command_id)))
                                λ command_id' _.
                                  then_returns (any_result (require_id_value (string owner)))
                                    λ owner' _.
                                      then_returns
                                        (any_result (optional_text (string f.reason_code)))
                                        λ reason_code _. returned _ (q, p)

event_made :
    (session event_id command_id owner : String) (seq : ℕ) (f : Feedback)
    → IsId session
    → Tagged session seq f
    → Returns (λ e. Marked session seq e) (parse_event (event_of event_id command_id owner f))
event_made session event_id command_id owner seq f h p =
    returns_weaken (event-Marked event_id command_id owner f (rw p.1 h))
      (λ e q. (q.0 ∙ p.0, q.1 ∙ p.1))

abbrev pub MadeAs : String → ℕ → SourceKey → Fact → Type 0
MadeAs session seq key f =
    (f.seq ≡ seq)
    × (f.source_key ≡ key)
    × (f.acknowledged ≡ false)
    × (f.feedback.event_seq ≡ seq)
    × (f.event.event_seq ≡ seq)
    × (f.event.ex_session ≡ session)
    × IsEvent f.event

made-IsEvent :
    (session event_id command_id owner : String) (seq : ℕ) (f : Feedback)
    → IsId session
    → Tagged session seq f
    → Returns
        (λ e. Marked session seq e × IsEvent e)
        (parse_event (event_of event_id command_id owner f))
made-IsEvent session event_id command_id owner seq f h p =
    of_result (parse_event (event_of event_id command_id owner f)) (λ e is. (
      of_returns (parse_event (event_of event_id command_id owner f)) e
          (event_made session event_id command_id owner seq f h p) is,
      of_returns (parse_event (event_of event_id command_id owner f)) e
          (checked-IsEvent (event_of event_id command_id owner f)) is,
    ))

pub make_fact-MadeAs :
    (o : Outside) (session : String) (seq : ℕ) (key : SourceKey) (d : Draft)
    (command_id owner : String)
    → IsId session
    → Returns (MadeAs session seq key) (make_fact o session seq key d command_id owner)
unfolding make_fact
make_fact-MadeAs o session seq key d command_id owner h =
    then_returns (feedback-Tagged (numbered session seq d) h) λ f p.
      then_returns (made-IsEvent session (o.event_id session key) command_id owner seq f h p) λ e q.
        then_returns
          (any_result (
            raise_if (ltb 8192 (o.byte_length (event_to_dict e)))
              (runtime_error "journal_fact_capacity")))
          λ _ _. returned _ (refl, refl, refl, p.0, q.0.0, q.0.1, q.1)
