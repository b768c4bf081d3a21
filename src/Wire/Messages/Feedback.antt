-- ===== src/Wire/Messages/Feedback.antt =====
-- `Feedback` with its `parse` and `to_dict`: astrbot_ex/core/decision/models.py.
use astrbot_ex.Prelude.{ℕ, String, not, some, List, [], ◌∷◌}
use astrbot_ex.Actions.Error.{Result, ok, reject_if, ◌>>=◌, ◌>>◌, enum_violation}
use astrbot_ex.Wire.Json.{Json, Members, string, object, no_members, member}
use astrbot_ex.Wire.Fields.{
  get_or, field, require_object, require_id_value, require_sequence_value, optional_text, is_listed,
  check_version,
}
use astrbot_ex.Prelude.{◌=?◌, if◌then◌else◌}
use astrbot_ex.Wire.Messages.Commands.{number, validate_stop_evidence}
use astrbot_ex.Wire.Messages.Goals.{wire_object}

pub record Feedback : Type 0 where
  pub ex_session : String
  pub task_id : String
  pub goal_id : String
  pub goal_revision : ℕ
  pub event_seq : ℕ
  pub status : String
  pub reason_code : String
  pub details : Members

abbrev pub feedback_statuses : List String
feedback_statuses =
    "admitted" ∷ "rejected" ∷ "accepted" ∷ "running" ∷ "succeeded" ∷ "failed" ∷ "canceled"
    ∷ "timed_out" ∷ "unknown" ∷ []

abbrev pub feedback_fields : List String
feedback_fields =
    "schema_version" ∷ "ex_session" ∷ "task_id" ∷ "goal_id" ∷ "goal_revision" ∷ "event_seq"
    ∷ "status" ∷ "reason_code" ∷ "details" ∷ []

unfoldable pub parse_feedback : Json → Result Feedback
parse_feedback v = do
  raw ← wire_object feedback_fields v
  check_version raw
  details ← require_object (get_or (object no_members) "details" raw)
  status ← require_id_value (field "status" raw)
  reject_if (not (is_listed feedback_statuses status)) enum_violation
  (if status =? "canceled" then validate_stop_evidence details else ok tt)
  ex_session ← require_id_value (field "ex_session" raw)
  task_id ← require_id_value (field "task_id" raw)
  goal_id ← require_id_value (field "goal_id" raw)
  goal_revision ← require_sequence_value 0 (field "goal_revision" raw)
  event_seq ← require_sequence_value 1 (field "event_seq" raw)
  reason_code ← optional_text (get_or (string "") "reason_code" raw)
  ok (record {
    ex_session = ex_session;
    task_id = task_id;
    goal_id = goal_id;
    goal_revision = goal_revision;
    event_seq = event_seq;
    status = status;
    reason_code = reason_code;
    details = details;
  })

abbrev pub feedback_members : Feedback → Members
feedback_members f = member (some "schema_version") (number 1) (
    member (some "ex_session") (string f.ex_session) (
      member (some "task_id") (string f.task_id) (
        member (some "goal_id") (string f.goal_id) (
          member (some "goal_revision") (number f.goal_revision) (
            member (some "event_seq") (number f.event_seq) (
              member (some "status") (string f.status) (
                member (some "reason_code") (string f.reason_code)
                  (member (some "details") (object f.details) no_members))))))))
