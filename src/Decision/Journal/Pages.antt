-- ===== src/Decision/Journal/Pages.antt =====
-- `ack`, `pending` and `events` of the journal, and `EventsReply.parse` with `_event`
-- (astrbot_ex/core/decision/models.py).
use astrbot_ex.Prelude.{
  ℕ, ◌+◌, String, Bool, true, false, not, Option, none, some, List, [], ◌∷◌, ltb, leb, ◌==◌, ◌=?◌,
  ◌&&◌, ◌||◌, if◌then◌else◌, take,
}
use astrbot_ex.Actions.Error.{
  Result, ok, reject_if, ◌>>=◌, ◌>>◌, range_violation, invalid_type, stale_ex_session,
  enum_violation,
}
use astrbot_ex.Wire.Json.{
  Json, Items, Members, string, boolean, array, object, no_items, item, no_members, member,
}
use astrbot_ex.Wire.Fields.{
  field, get_or, require_object, require_bool, require_id_value, require_sequence_value,
  optional_text, is_listed, check_input_budget, check_finite, reject_unknown_fields, check_version,
  require_fields,
}
use astrbot_ex.Wire.Messages.Commands.{
  ActionEvent, number, event_fields, event_to_dict, validate_stop_evidence,
}
use astrbot_ex.Wire.Messages.Goals.{wire_object}
use astrbot_ex.Wire.Messages.Feedback.{Feedback, feedback_statuses}
use astrbot_ex.Decision.Journal.{Fact, Journal, Outside}

-- the row of a sequence
unfoldable pub find_fact : ℕ → List Fact → Option Fact
find_fact n [] = none
find_fact n (f ∷ fs) = if f.seq == n then some f else find_fact n fs

-- `UPDATE facts SET acknowledged=1 WHERE seq=?`
unfoldable pub set_acknowledged : ℕ → List Fact → List Fact
set_acknowledged n [] = []
set_acknowledged n (f ∷ fs) =
    (if f.seq == n then record f { acknowledged = true } else f) ∷ set_acknowledged n fs

abbrev pub is_fact : Outside → Feedback → Option Fact → Bool
is_fact o feedback none = false
is_fact o feedback (some f) = o.eq_feedback f.feedback feedback

unfoldable pub ack : Outside → Feedback → Journal → Bool × Journal
unfolding find_fact set_acknowledged
ack o feedback j =
    if is_fact o feedback (find_fact feedback.event_seq j.facts)
    then (true, record j { facts = set_acknowledged feedback.event_seq j.facts })
    else (false, j)

unfoldable pub unacknowledged : List Fact → List Feedback
unacknowledged [] = []
unacknowledged (f ∷ fs) =
    let rest = unacknowledged fs in if f.acknowledged then rest else f.feedback ∷ rest

unfoldable pub pending : Journal → List Feedback
unfolding unacknowledged
pending j = take j.page_size (unacknowledged j.facts)

-- `WHERE seq>?`
unfoldable pub facts_after : ℕ → List Fact → List Fact
facts_after n [] = []
facts_after n (f ∷ fs) = let rest = facts_after n fs in if ltb n f.seq then f ∷ rest else rest

pub record Reply : Type 0 where
  pub ex_session : String
  pub events : List ActionEvent
  pub oldest_available_seq : ℕ
  pub latest_event_seq : ℕ
  pub resync_required : Bool

unfoldable pub events_of : List Fact → List ActionEvent
events_of [] = []
events_of (f ∷ fs) = f.event ∷ events_of fs

-- the sequence of the last event
abbrev pub last_seq : ℕ → List ActionEvent → ℕ
last_seq n [] = n
last_seq n (e ∷ es) = last_seq e.event_seq es

-- `head if resync or not selected else selected[-1]["event_seq"]`
unfoldable pub horizon : ℕ → List ActionEvent → ℕ
horizon head [] = head
horizon head (e ∷ es) = last_seq head (e ∷ es)

unfoldable pub select_page : ℕ → Journal → Reply
unfolding facts_after events_of horizon
select_page since j =
    let resync = ltb since j.trimmed || ltb j.head since in
    let selected =
      if resync then [] else events_of (take j.page_size (facts_after since j.facts)) in
    record {
      ex_session = j.session;
      events = selected;
      oldest_available_seq = j.trimmed + 1;
      latest_event_seq = if resync then j.head else horizon j.head selected;
      resync_required = resync;
    }

-- the loop over the events of a reply
unfoldable pub check_order : String → ℕ → ℕ → ℕ → List ActionEvent → Result (Unit {0})
check_order session oldest latest previous [] = ok tt
check_order session oldest latest previous (e ∷ es) = do
  reject_if (leb e.event_seq previous) range_violation
  reject_if (not (e.ex_session =? session)) stale_ex_session
  reject_if (not (leb oldest e.event_seq && leb e.event_seq latest)) range_violation
  check_order session oldest latest e.event_seq es

abbrev pub is_empty : List ActionEvent → Bool
is_empty [] = true
is_empty _ = false

abbrev pub required_event_fields : List String
required_event_fields =
    "event_id" ∷ "event_seq" ∷ "ex_session" ∷ "task_id" ∷ "goal_id" ∷ "goal_revision" ∷ "command_id"
    ∷ "owner" ∷ "status" ∷ []

-- `_event`, whose result is the dictionary itself
unfoldable pub check_event : Json → Result (Unit {0})
check_event v = do
  raw ← require_object v
  check_finite (object raw)
  check_input_budget (object raw)
  reject_unknown_fields raw event_fields
  require_fields required_event_fields raw
  event_id ← require_id_value (field "event_id" raw)
  ex_session ← require_id_value (field "ex_session" raw)
  task_id ← require_id_value (field "task_id" raw)
  goal_id ← require_id_value (field "goal_id" raw)
  command_id ← require_id_value (field "command_id" raw)
  owner ← require_id_value (field "owner" raw)
  event_seq ← require_sequence_value 1 (field "event_seq" raw)
  goal_revision ← require_sequence_value 0 (field "goal_revision" raw)
  status ← require_id_value (field "status" raw)
  reject_if (not (is_listed feedback_statuses status)) enum_violation
  reason_code ← optional_text (get_or (string "") "reason_code" raw)
  details ← require_object (get_or (object no_members) "details" raw)
  (if status =? "canceled" then validate_stop_evidence details else ok tt)
  ok tt

unfoldable pub check_events : List ActionEvent → Result (Unit {0})
unfolding check_event
check_events [] = ok tt
check_events (e ∷ es) = do check_event (event_to_dict e); check_events es

abbrev pub reply_fields : List String
reply_fields =
    "schema_version" ∷ "ex_session" ∷ "events" ∷ "oldest_available_seq" ∷ "latest_event_seq"
    ∷ "resync_required" ∷ []

unfoldable pub event_items : List ActionEvent → Items
event_items [] = no_items
event_items (e ∷ es) = item (event_to_dict e) (event_items es)

abbrev pub reply_members : Reply → Members
reply_members r = member (some "schema_version") (number 1) (
    member (some "ex_session") (string r.ex_session) (
      member (some "events") (array (event_items r.events)) (
        member (some "oldest_available_seq") (number r.oldest_available_seq) (
          member (some "latest_event_seq") (number r.latest_event_seq)
            (member (some "resync_required") (boolean r.resync_required) no_members)))))

-- the dictionary that the journal makes, and that `to_dict` gives back
unfoldable pub reply_to_dict : Reply → Json
unfolding event_items
reply_to_dict r = object (reply_members r)

-- `EventsReply.parse` of that dictionary, whose events are those of the reply
unfoldable pub check_reply : Reply → Result Reply
unfolding check_order check_events reply_to_dict
check_reply r = do
  raw ← wire_object reply_fields (reply_to_dict r)
  check_version raw
  require_fields reply_fields raw
  oldest ← require_sequence_value 0 (field "oldest_available_seq" raw)
  latest ← require_sequence_value 0 (field "latest_event_seq" raw)
  reject_if (ltb (latest + 1) oldest) range_violation
  session ← require_id_value (field "ex_session" raw)
  check_events r.events
  resync_required ← require_bool (field "resync_required" raw)
  reject_if (resync_required && not (is_empty r.events)) invalid_type
  check_order session oldest latest 0 r.events
  ok r

unfoldable pub events : ℕ → Journal → Result Reply
unfolding select_page check_reply
events since j = check_reply (select_page since j)
