-- ===== src/Decision/Journal.antt =====
-- `FeedbackJournal` of astrbot_ex/core/decision/feedback_journal.py: the facts of one session in order,
-- their sources, the goals with their summaries, the drafts and the admissions. Every statement but one
-- of `snapshot` selects the rows of the journal's own session, so a state has the rows of that session.
pub mod Facts
pub mod Completion
pub mod Pages
pub mod Made
pub mod Invariant
pub mod Calls
pub mod Replies
pub mod Paging
pub mod CatchUp
pub mod Once
pub mod Receipts
pub mod Evidence
mod Examples
use astrbot_ex.Prelude.{
  ℕ, ◌+◌, ◌-◌, ◌≤◌, String, Bool, true, false, not, Option, none, some, List, [], ◌∷◌, ◌++◌, ltb,
  leb, ◌==◌, ◌=?◌, ◌&&◌, ◌||◌, if◌then◌else◌, length, take, max,
}
use astrbot_ex.Actions.Error.{
  Error, runtime_error, key_error, Result, ok, raise, raise_if, ◌>>=◌, ◌>>◌,
}
use astrbot_ex.Actions.Status.{Status, admitted, accepted, running, canceled}
use astrbot_ex.Wire.Json.{Json, Members, string, object, no_members, member}
use astrbot_ex.Wire.Fields.{get_field}
use astrbot_ex.Wire.Messages.Commands.{ActionEvent, number, parse_event, event_to_dict, status_name}
use astrbot_ex.Wire.Messages.Feedback.{Feedback, parse_feedback, feedback_members}

-- The texts "ledger:" + event_id and "summary:" + goal_id + ":" + str(revision). They differ where
-- these differ, since a revision is written in digits.
pub data SourceKey : Type 0 where
  ledger : String → SourceKey
  summary : String → ℕ → SourceKey

abbrev pub eq_key : SourceKey → SourceKey → Bool
eq_key (ledger a) (ledger b) = a =? b
eq_key (summary a m) (summary b n) = a =? b && m == n
eq_key _ _ = false

-- what a caller of `_append` says of a fact
pub record Draft : Type 0 where
  pub task_id : String
  pub goal_id : String
  pub goal_revision : ℕ
  pub status : String
  pub reason_code : String
  pub details : Members

-- a row of `facts`
pub record Fact : Type 0 where
  pub seq : ℕ
  pub source_key : SourceKey
  pub event : ActionEvent
  pub feedback : Feedback
  pub acknowledged : Bool

-- the summary of a goal: the entries that are read, and the whole
pub record Summary : Type 0 where
  pub status : String
  pub reason_code : String
  pub details : Members
  pub whole : Json

-- a goal's payload, and its canonical text
pub record Payload : Type 0 where
  pub request_id : String
  pub task_id : String
  pub goal_id : String
  pub encoded : String

pub record GoalRow : Type 0 where
  pub revision : ℕ
  pub payload : Payload
  -- the fact of the summary; inside, `null`
  pub summary : Option (Option Feedback)

pub record DraftRow : Type 0 where
  pub goal_id : String
  pub revision : ℕ
  pub epoch : ℕ
  pub summary : Summary

pub record AdmissionRow : Type 0 where
  pub payload : Payload
  pub revision : ℕ
  pub result : Option String

pub record Journal : Type 0 where
  pub session : String
  pub retention : ℕ
  pub page_size : ℕ
  pub goal_limit : ℕ
  pub head : ℕ
  pub trimmed : ℕ
  pub ledger_cursor : ℕ
  pub goals : List GoalRow
  -- the source keys that were consumed, with the sequence of their fact
  pub tombstones : List (SourceKey × ℕ)
  pub drafts : List DraftRow
  pub admissions : List AdmissionRow
  -- in the order of their sequence
  pub facts : List Fact

-- `uuid5` of a source, the length of a canonical text in bytes, and equality of dictionaries
pub record Outside : Type 0 where
  pub event_id : String → SourceKey → String
  pub byte_length : Json → ℕ
  pub eq_feedback : Feedback → Feedback → Bool

abbrev valid_bounds : ℕ → ℕ → ℕ → Bool
valid_bounds retention page_size goal_limit =
    leb 1 page_size
    && leb page_size retention
    && leb retention 10000
    && leb 1 goal_limit
    && leb goal_limit 4096

-- the journal of a session that the database does not have yet
unfoldable pub open_journal : String → ℕ → ℕ → ℕ → Result Journal
open_journal session retention page_size goal_limit = do
  raise_if (not (valid_bounds retention page_size goal_limit)) Error.value_error
  ok (record {
    session = session;
    retention = retention;
    page_size = page_size;
    goal_limit = goal_limit;
    head = 0;
    trimmed = 0;
    ledger_cursor = 0;
    goals = [];
    tombstones = [];
    drafts = [];
    admissions = [];
    facts = [];
  })

-- the goal of an id and a revision
unfoldable pub find_goal : String → ℕ → List GoalRow → Option GoalRow
find_goal goal_id revision [] = none
find_goal goal_id revision (g ∷ gs) =
    if g.payload.goal_id =? goal_id && g.revision == revision
    then some g
    else find_goal goal_id revision gs

-- `_insert_goal`
unfoldable pub insert_goal : Payload → ℕ → Journal → Result Journal
unfolding find_goal
insert_goal payload revision j = elim (find_goal payload.goal_id revision j.goals) [
  | some g ↦
      if g.payload.encoded =? payload.encoded
      then ok j
      else raise (runtime_error "journal_goal_conflict")
  | none ↦
      if leb j.goal_limit (length j.goals)
      then raise (runtime_error "journal_goal_capacity")
      else ok (record j {
        goals = j.goals ++ record { revision = revision; payload = payload; summary = none } ∷ [];
      })
]

unfoldable pub registered : String → ℕ → Journal → Bool
unfolding find_goal
registered goal_id revision j = elim (find_goal goal_id revision j.goals) [
  | some g ↦ true
  | none ↦ false
]

unfoldable pub find_admission : String → List AdmissionRow → Option AdmissionRow
find_admission request_id [] = none
find_admission request_id (a ∷ rest) =
    if a.payload.request_id =? request_id then some a else find_admission request_id rest

unfoldable pub prepare_admission : Payload → ℕ → Journal → Result Journal
unfolding find_admission insert_goal
prepare_admission payload revision j = elim (find_admission payload.request_id j.admissions) [
  | some a ↦
      if a.payload.encoded =? payload.encoded && a.revision == revision
      then ok j
      else raise (runtime_error "journal_admission_conflict")
  | none ↦ do
    j' ← insert_goal payload revision j
    ok (record j' {
      admissions = record { payload = payload; revision = revision; result = none } ∷ j'.admissions;
    })
]

-- `UPDATE admissions SET result=?`
unfoldable pub set_result : Payload → String → List AdmissionRow → List AdmissionRow
set_result payload result [] = []
set_result payload result (a ∷ rest) =
    if a.payload.request_id =? payload.request_id && a.payload.encoded =? payload.encoded
    then record a { result = some result } ∷ rest
    else a ∷ set_result payload result rest

abbrev pub is_same : Payload → Option AdmissionRow → Bool
is_same payload none = false
is_same payload (some a) = a.payload.encoded =? payload.encoded

unfoldable pub confirm_admission : Payload → String → Journal → Result Journal
unfolding find_admission set_result
confirm_admission payload result j =
    if is_same payload (find_admission payload.request_id j.admissions)
    then ok (record j { admissions = set_result payload result j.admissions })
    else raise (runtime_error "journal_admission_missing")
