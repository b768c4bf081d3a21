-- ===== src/Decision/Journal/Facts.antt =====
-- `_append`, `_collect`, `prepare_completion`, `publish_completion` and `ack` of the journal.
use astrbot_ex.Prelude.{
  ℕ, ◌+◌, ◌-◌, String, Bool, true, false, Option, none, some, List, [], ◌∷◌, ◌++◌, ltb, leb, ◌=?◌,
  ◌&&◌, if◌then◌else◌, max,
}
use astrbot_ex.Actions.Error.{runtime_error, key_error, Result, ok, raise, raise_if, ◌>>=◌, ◌>>◌}
use astrbot_ex.Actions.Status.{Status, eq_status}
use astrbot_ex.Wire.Json.{Json, Members, string, object, no_members, member}
use astrbot_ex.Wire.Fields.{get_field}
use astrbot_ex.Wire.Messages.Commands.{number, parse_event, event_to_dict, status_name}
use astrbot_ex.Wire.Messages.Feedback.{Feedback, parse_feedback, feedback_members}
use astrbot_ex.Decision.Journal.{SourceKey, ledger, eq_key, Draft, Fact, Journal, Outside}

unfoldable pub find_source : SourceKey → List Fact → Option Fact
find_source key [] = none
find_source key (f ∷ fs) = if eq_key f.source_key key then some f else find_source key fs

unfoldable pub is_consumed : SourceKey → List (SourceKey × ℕ) → Bool
is_consumed key [] = false
is_consumed key ((k, n) ∷ ts) = if eq_key k key then true else is_consumed key ts

-- `DELETE FROM facts WHERE seq<=?`
unfoldable pub trim_facts : ℕ → List Fact → List Fact
trim_facts n [] = []
trim_facts n (f ∷ fs) = let rest = trim_facts n fs in if leb f.seq n then rest else f ∷ rest

abbrev pub numbered : String → ℕ → Draft → Feedback
numbered session seq d = record {
  ex_session = session;
  task_id = d.task_id;
  goal_id = d.goal_id;
  goal_revision = d.goal_revision;
  event_seq = seq;
  status = d.status;
  reason_code = d.reason_code;
  details = d.details;
}

-- the dictionary that is parsed as a feedback
abbrev pub feedback_of : String → ℕ → Draft → Json
feedback_of session seq d = object (feedback_members (numbered session seq d))

-- the dictionary that is parsed as an event: the feedback's entries but the version
abbrev pub event_entries : String → String → String → Feedback → Members
event_entries event_id command_id owner f = member (some "event_id") (string event_id) (
    member (some "command_id") (string command_id) (
      member (some "owner") (string owner) (
        member (some "ex_session") (string f.ex_session) (
          member (some "task_id") (string f.task_id) (
            member (some "goal_id") (string f.goal_id) (
              member (some "goal_revision") (number f.goal_revision) (
                member (some "event_seq") (number f.event_seq) (
                  member (some "status") (string f.status) (
                    member (some "reason_code") (string f.reason_code)
                      (member (some "details") (object f.details) no_members))))))))))

abbrev pub event_of : String → String → String → Feedback → Json
event_of event_id command_id owner f = object (event_entries event_id command_id owner f)

-- the new fact, checked
unfoldable pub make_fact : Outside → String → ℕ → SourceKey → Draft → String → String → Result Fact
make_fact o session seq key d command_id owner = do
  feedback ← parse_feedback (feedback_of session seq d)
  event ← parse_event (event_of (o.event_id session key) command_id owner feedback)
  raise_if (ltb 8192 (o.byte_length (event_to_dict event))) (runtime_error "journal_fact_capacity")
  ok (record {
    seq = seq;
    source_key = key;
    event = event;
    feedback = feedback;
    acknowledged = false;
  })

-- the rows after a new fact
unfoldable pub add_fact : Fact → Journal → Journal
unfolding trim_facts
add_fact f j = record j {
  head = f.seq;
  trimmed = f.seq - j.retention;
  tombstones = (f.source_key, f.seq) ∷ j.tombstones;
  facts = trim_facts (f.seq - j.retention) (j.facts ++ f ∷ []);
}

-- `_append`; a trimmed source gives `none`
unfoldable pub append :
    Outside → SourceKey → Draft → String → String → Journal → Result (Option Feedback × Journal)
unfolding find_source is_consumed make_fact add_fact
append o key d command_id owner j = elim (find_source key j.facts) [
  | some f ↦ ok (some f.feedback, j)
  | none ↦ if is_consumed key j.tombstones then ok (none, j) else do
    f ← make_fact o j.session (j.head + 1) key d command_id owner
    ok (some f.feedback, add_fact f j)
]

-- an event of the ledger's page
pub record LedgerEvent : Type 0 where
  pub complete : Bool
  pub event_id : String
  pub event_seq : ℕ
  pub ex_session : String
  pub task_id : String
  pub goal_id : String
  pub goal_revision : ℕ
  pub command_id : String
  pub owner : String
  pub status : Status
  pub details : Members

-- the status that a fact about an action shows
unfoldable pub shown_status : Status → String
shown_status Status.admitted = "admitted"
shown_status Status.accepted = "accepted"
shown_status _ = "running"

-- `"ledger_" + event.status`
abbrev pub reason_of : Status → String
reason_of Status.admitted = "ledger_admitted"
reason_of Status.rejected = "ledger_rejected"
reason_of Status.accepted = "ledger_accepted"
reason_of Status.running = "ledger_running"
reason_of Status.succeeded = "ledger_succeeded"
reason_of Status.failed = "ledger_failed"
reason_of Status.canceled = "ledger_canceled"
reason_of Status.timed_out = "ledger_timed_out"
reason_of Status.unknown = "ledger_unknown"

-- `details["stop_evidence"] = event.details["stop_evidence"]`
abbrev pub stop_details : LedgerEvent → Result Members
stop_details e =
    if eq_status e.status Status.canceled
    then elim (get_field "stop_evidence" e.details) [
      | none ↦ raise key_error
      | some v ↦ ok (member (some "stop_evidence") v no_members)
    ]
    else ok no_members

unfoldable pub ledger_draft : LedgerEvent → Result Draft
unfolding shown_status
ledger_draft e = do
  stop ← stop_details e
  ok (record {
    task_id = e.task_id;
    goal_id = e.goal_id;
    goal_revision = e.goal_revision;
    status = shown_status e.status;
    reason_code = reason_of e.status;
    details = member (some "command_id") (string e.command_id) (
        member (some "owner") (string e.owner) (
          member (some "ledger_event_id") (string e.event_id) (
            member (some "ledger_event_seq") (number e.event_seq)
              (member (some "action_status") (string (status_name e.status)) stop))));
  })

unfoldable pub collect_event : Outside → LedgerEvent → Journal → Result Journal
unfolding ledger_draft append
collect_event o e j =
    if e.complete && e.ex_session =? j.session
    then (do
      d ← ledger_draft e
      appended ← append o (ledger e.event_id) d e.command_id e.owner j
      ok appended.1)
    else ok j

-- the loop over the page
unfoldable pub collect_page : Outside → List LedgerEvent → ℕ → Journal → Result (ℕ × Journal)
unfolding collect_event
collect_page o [] cursor j = ok (cursor, j)
collect_page o (e ∷ es) cursor j = do j' ← collect_event o e j; collect_page o es e.event_seq j'

-- `_collect`, for the page that the ledger gives after the cursor
unfoldable pub collect : Outside → List LedgerEvent → Journal → Result Journal
unfolding collect_page
collect o page j = do
  collected ← collect_page o page j.ledger_cursor j
  ok (record collected.1 { ledger_cursor = max collected.1.ledger_cursor collected.0 })
