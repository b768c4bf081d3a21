-- ===== src/Decision/Journal/Completion.antt =====
-- `prepare_completion` and `publish_completion` of the journal.
use astrbot_ex.Prelude.{
  ℕ, zero, suc, String, Bool, true, false, not, Option, none, some, List, [], ◌∷◌, ltb, ◌==◌, ◌=?◌,
  ◌&&◌, ◌||◌, if◌then◌else◌,
}
use astrbot_ex.Actions.Error.{runtime_error, Result, ok, raise, raise_if, ◌>>=◌, ◌>>◌}
use astrbot_ex.Wire.Budget.{Verdict, accepted, measure_json_budget}
use astrbot_ex.Wire.Messages.Feedback.{Feedback}
use astrbot_ex.Decision.Journal.{
  summary, Draft, Summary, GoalRow, DraftRow, Journal, Outside, find_goal, registered,
}
use astrbot_ex.Decision.Journal.Facts.{LedgerEvent, append, collect}

-- a round: the page was collected, and the loop goes on unless the cursor stayed
abbrev pub flush_round :
    Journal → Result Journal → (Journal → Journal × Result (Unit {0})) → Journal × Result (Unit {0})
flush_round j (raise e) next = (j, raise e)
flush_round j (ok j') next =
    let rest = next j' in if j'.ledger_cursor == j.ledger_cursor then (j', ok tt) else rest

-- The loop before a summary: pages are collected until the cursor stays. Each round commits.
unfoldable pub flush : Outside → (ℕ → List LedgerEvent) → ℕ → Journal → Journal × Result (Unit {0})
flush o page zero j = (j, raise (runtime_error "journal_ledger_backlog"))
flush o page (suc n) j =
    flush_round j (collect o (page j.ledger_cursor) j) (λ j'. flush o page n j')

abbrev is_accepted : Verdict → Bool
is_accepted accepted = true
is_accepted _ = false

-- `INSERT OR REPLACE INTO drafts`
unfoldable pub put_draft : DraftRow → List DraftRow → List DraftRow
put_draft d [] = d ∷ []
put_draft d (r ∷ rs) =
    if r.goal_id =? d.goal_id && r.revision == d.revision && r.epoch == d.epoch
    then d ∷ rs
    else r ∷ put_draft d rs

abbrev pub too_large : Outside → Summary → Bool
too_large o s = ltb 7500 (o.byte_length s.whole) || not (is_accepted (measure_json_budget s.whole))

-- behind the loop
unfoldable pub store_draft : Outside → DraftRow → Journal → Result Journal
unfolding registered put_draft
store_draft o d j = do
  raise_if (not (registered d.goal_id d.revision j)) (runtime_error "journal_goal_unregistered")
  raise_if (too_large o d.summary) (runtime_error "journal_summary_capacity")
  ok (record j { drafts = put_draft d j.drafts })

-- the draft, once the loop has ended
abbrev pub stored : Journal → Result Journal → Journal × Result (Unit {0})
stored j (raise e) = (j, raise e)
stored j (ok j') = (j', ok tt)

abbrev pub after_flush :
    Outside → DraftRow → Journal × Result (Unit {0}) → Journal × Result (Unit {0})
after_flush o d (j, raise e) = (j, raise e)
after_flush o d (j, ok done) = stored j (store_draft o d j)

unfoldable pub prepare_completion :
    Outside → (ℕ → List LedgerEvent) → DraftRow → Journal → Journal × Result (Unit {0})
unfolding flush store_draft
prepare_completion o page d j = after_flush o d (flush o page 80 j)

unfoldable pub find_draft : String → ℕ → ℕ → List DraftRow → Option DraftRow
find_draft goal_id revision epoch [] = none
find_draft goal_id revision epoch (r ∷ rs) =
    if r.goal_id =? goal_id && r.revision == revision && r.epoch == epoch
    then some r
    else find_draft goal_id revision epoch rs

-- `UPDATE goals SET summary=?`
unfoldable pub set_summary : String → ℕ → Option Feedback → List GoalRow → List GoalRow
set_summary goal_id revision fact [] = []
set_summary goal_id revision fact (g ∷ gs) =
    if g.payload.goal_id =? goal_id && g.revision == revision
    then record g { summary = some fact } ∷ gs
    else g ∷ set_summary goal_id revision fact gs

-- the fact of a summary
abbrev pub summary_draft : GoalRow → Summary → Draft
summary_draft g s = record {
  task_id = g.payload.task_id;
  goal_id = g.payload.goal_id;
  goal_revision = g.revision;
  status = s.status;
  reason_code = s.reason_code;
  details = s.details;
}

-- The id of the command that stands for a summary is a parameter, as are the other `uuid5`.
unfoldable pub publish_goal :
    Outside
    → (String → ℕ → String)
    → GoalRow
    → Summary
    → Journal
    → Result (Option Feedback × Journal)
unfolding set_summary
publish_goal o command_of g s j = elim g.summary [
  | some old ↦ ok (old, j)
  | none ↦ do
    appended ←
        append o (summary g.payload.goal_id g.revision) (summary_draft g s)
          (command_of g.payload.goal_id g.revision) "ex-framework" j
    ok (
      appended.0,
      record appended.1 {
        goals = set_summary g.payload.goal_id g.revision appended.0 appended.1.goals;
      },
    )
]

unfoldable pub publish_completion :
    Outside
    → (String → ℕ → String)
    → String
    → String
    → ℕ
    → ℕ
    → Journal
    → Result (Option Feedback × Journal)
unfolding find_draft find_goal publish_goal
publish_completion o command_of session goal_id revision epoch j =
    elim (find_draft goal_id revision epoch j.drafts) [
      | none ↦ raise (runtime_error "journal_draft_missing")
      | some d ↦ do
        raise_if (not (session =? j.session)) (runtime_error "journal_draft_missing")
        elim (find_goal goal_id revision j.goals) [
          | none ↦ raise (runtime_error "NoneType")
          | some g ↦ publish_goal o command_of g d.summary j
        ]
    ]
