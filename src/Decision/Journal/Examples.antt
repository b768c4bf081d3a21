-- ===== src/Decision/Journal/Examples.antt =====
-- Runs of a small journal, and the theorems about it at inputs.
use astrbot_ex.Wire.Messages.Commands.Reports.{IsEvent}
use astrbot_ex.Wire.Messages.Commands.{event_to_dict}
use astrbot_ex.Prelude.{
  ℕ, zero, suc, ◌+◌, ◌≡◌, refl, arith, String, true, false, Bool, Option, none, some, List, [], ◌∷◌,
  ◌==◌, min, String-discrete,
}
use astrbot_ex.Prelude.Text.{strip}
use astrbot_ex.Actions.Error.{runtime_error, ok, raise, ◌>>◌}
use astrbot_ex.Actions.Status.{Status}
use astrbot_ex.Wire.Json.{
  no_members, Members, member, boolean, object, string_json_size, scalar_json_size, digits,
  char_size,
}
use astrbot_ex.Wire.Fields.Laws.{IsId}
use astrbot_ex.Wire.Fields.{
  get_or, get_field, check_input_budget, check_finite, reject_unknown_fields, check_version,
  require_id_value, require_sequence_value, optional_text, require_text_value, require_object,
}
use astrbot_ex.Wire.Budget.{measure_json_budget, find_non_finite, is_crowded, is_deep, is_over}
use astrbot_ex.Wire.Messages.Goals.{wire_object}
use astrbot_ex.Wire.Messages.Commands.{ActionEvent, parse_event, status_of, validate_stop_evidence}
use astrbot_ex.Actions.Command.{require_text, require_id}
use astrbot_ex.Wire.Messages.Feedback.{Feedback, parse_feedback}
use astrbot_ex.Decision.Journal.Evidence.{is_verified, completes, find_completion, completion}
use astrbot_ex.Decision.Journal.{ledger, Draft, Fact, Journal, Outside, open_journal}
use astrbot_ex.Decision.Journal.Facts.{
  is_consumed, find_source, make_fact, add_fact, trim_facts, append,
}
use astrbot_ex.Decision.Journal.Pages.{
  reply_to_dict, events_of, facts_after, event_items, events, is_fact, find_fact, unacknowledged,
  ack,
}
use astrbot_ex.Decision.Journal.Invariant.{IsJournal}
use astrbot_ex.Decision.Journal.Calls.{acks, run}
use astrbot_ex.Decision.Journal.Paging.{Numbered, page_reply, events_page}
use astrbot_ex.Decision.Journal.CatchUp.{PagesFit, read_on, read_on-head}
use astrbot_ex.Decision.Journal.Once.{run-IsJournal, appended_once}
use astrbot_ex.Decision.Journal.Receipts.{without, ack_exact}

abbrev outside : Outside
outside = record {
  event_id = λ session key. "e";
  byte_length = λ v. 100;
  eq_feedback = λ a b. a.event_seq == b.event_seq;
}

abbrev command_of : String → ℕ → String
command_of goal_id revision = "goal-summary"

abbrev empty_journal : Journal
empty_journal = record {
  session = "s1";
  retention = 2;
  page_size = 1;
  goal_limit = 4;
  head = 0;
  trimmed = 0;
  ledger_cursor = 0;
  goals = [];
  tombstones = [];
  drafts = [];
  admissions = [];
  facts = [];
}

test_open : open_journal "s1" 2 1 4 ≡ ok empty_journal
unfolding open_journal
test_open = refl

session-IsId : IsId "s1"
unfolding strip
session-IsId = (refl, λ e. cc, omega arith)

abbrev draft : Draft
draft = record {
  task_id = "t1";
  goal_id = "g1";
  goal_revision = 1;
  status = "running";
  reason_code = "ledger_running";
  details = no_members;
}

abbrev first_feedback : Feedback
first_feedback = record {
  ex_session = "s1";
  task_id = "t1";
  goal_id = "g1";
  goal_revision = 1;
  event_seq = 1;
  status = "running";
  reason_code = "ledger_running";
  details = no_members;
}

abbrev first_fact : Fact
first_fact = record {
  seq = 1;
  source_key = ledger "l1";
  event = record {
    event_id = "e";
    event_seq = 1;
    ex_session = "s1";
    task_id = "t1";
    goal_id = "g1";
    goal_revision = 1;
    command_id = "c1";
    owner = "o1";
    status = Status.running;
    reason_code = "ledger_running";
    details = no_members;
  };
  feedback = first_feedback;
  acknowledged = false;
}

abbrev one_fact : Journal
one_fact = record empty_journal {
  head = 1;
  tombstones = (ledger "l1", 1) ∷ [];
  facts = first_fact ∷ [];
}

test_append :
    append outside (ledger "l1") draft "c1" "o1" empty_journal ≡ ok (some first_feedback, one_fact)
unfolding append parse_feedback wire_object find_non_finite is_crowded is_deep is_over
    string_json_size scalar_json_size digits check_input_budget check_finite reject_unknown_fields
    check_version require_id_value require_id require_sequence_value optional_text require_text
    add_fact find_source is_consumed make_fact trim_facts strip measure_json_budget get_or char_size
    parse_event status_of validate_stop_evidence require_text_value require_object String-discrete
test_append = refl

empty_journal-IsJournal : IsJournal empty_journal
empty_journal-IsJournal = record {
  session = session-IsId;
  page_size = omega arith;
  retention = omega arith;
  trimmed = refl;
  facts = refl;
  sources = refl;
  consumed = tt;
}

first_event-IsEvent : IsEvent first_fact.event
unfolding strip check_finite find_non_finite measure_json_budget is_crowded is_deep is_over
first_event-IsEvent = record {
  event_id = (refl, λ e. cc, omega arith);
  event_seq = (omega arith, omega arith);
  ex_session = session-IsId;
  task_id = (refl, λ e. cc, omega arith);
  goal_id = (refl, λ e. cc, omega arith);
  goal_revision = omega arith;
  command_id = (refl, λ e. cc, omega arith);
  owner = (refl, λ e. cc, omega arith);
  stop = refl;
  reason_code = omega arith;
  details = refl;
}

one_fact-IsJournal : IsJournal one_fact
unfolding is_consumed String-discrete
one_fact-IsJournal = record {
  session = session-IsId;
  page_size = omega arith;
  retention = omega arith;
  trimmed = refl;
  facts = (refl, refl, refl, refl, first_event-IsEvent, refl);
  sources = refl;
  consumed = (refl, tt);
}

test_found : is_fact outside first_feedback (find_fact 1 (first_fact ∷ [])) ≡ true
unfolding find_fact
test_found = refl

run-IsJournal_example : IsJournal (run outside command_of (acks first_feedback ∷ []) empty_journal)
run-IsJournal_example =
    run-IsJournal outside command_of (acks first_feedback ∷ []) "s1" 2 1 4 empty_journal
      session-IsId test_open

appended_once_example :
    (answer : Option Feedback) × (append outside
        (ledger "l1")
        draft
        "c1"
        "o1"
        (run outside command_of (acks first_feedback ∷ []) one_fact)
      ≡ ok (answer, run outside command_of (acks first_feedback ∷ []) one_fact))
appended_once_example =
    appended_once outside command_of (ledger "l1") draft draft "c1" "o1" "c1" "o1" empty_journal
      (some first_feedback, one_fact) (acks first_feedback ∷ []) empty_journal-IsJournal test_append

events_page_example :
    (events 0 one_fact
      ≡ (check_input_budget (reply_to_dict (page_reply 0 one_fact)) >> ok (page_reply 0 one_fact)))
    × ((page_reply 0 one_fact).resync_required ≡ false)
    × ((page_reply 0 one_fact).latest_event_seq ≡ min 1 (0 + 1))
    × Numbered "s1" 0 (page_reply 0 one_fact).events (page_reply 0 one_fact).latest_event_seq
events_page_example = events_page 0 one_fact one_fact-IsJournal (omega arith) (omega arith)

pages-Fit : PagesFit 0 one_fact
unfolding check_input_budget reply_to_dict events_of facts_after event_items event_to_dict
    measure_json_budget is_crowded is_deep is_over scalar_json_size string_json_size digits
    char_size
pages-Fit zero from to = refl
pages-Fit (suc zero) from to = refl
pages-Fit (suc (suc k)) from to = absurd (omega (arith, to))

ack_exact_example :
    ((ack outside first_feedback one_fact).0 ≡ true)
    × (unacknowledged (ack outside first_feedback one_fact).1.facts
        ≡ without 1 (unacknowledged (first_fact ∷ [])))
ack_exact_example = ack_exact outside first_feedback one_fact one_fact-IsJournal test_found

read_on-head_example :
    (es : List ActionEvent) × (read_on 1 0 one_fact ≡ ok (es, 1)) × Numbered "s1" 0 es 1
read_on-head_example =
    read_on-head 1 0 one_fact one_fact-IsJournal pages-Fit (omega arith) (omega arith) (omega arith)

abbrev verified : Bool → Members
verified b =
    member (some "completion_evidence") (object (member (some "verified") (boolean b) no_members))
      no_members

abbrev success : Bool → Feedback
success b = record first_feedback { status = "succeeded"; details = verified b }

abbrev concluded : Option (Option Feedback) → Journal
concluded s = record one_fact {
  goals =
      record {
        revision = 1;
        payload = record { request_id = "r1"; task_id = "t1"; goal_id = "g1"; encoded = "{}" };
        summary = s;
      }
      ∷ [];
}

test_verified :
    completion "t1" 1 (concluded (some (some (success true)))) ≡ ok (some (success true))
unfolding completion find_completion completes is_verified get_or get_field String-discrete
test_verified = refl

test_unverified : completion "t1" 1 (concluded (some (some (success false)))) ≡ ok none
unfolding completion find_completion completes is_verified get_or get_field String-discrete
test_unverified = refl

-- a summary of `null` is no dictionary
test_null_summary : completion "t1" 1 (concluded (some none)) ≡ raise (runtime_error "TypeError")
unfolding completion find_completion
test_null_summary = refl
