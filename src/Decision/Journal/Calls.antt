-- ===== src/Decision/Journal/Calls.antt =====
-- Any sequence of calls of the journal, and that they keep its facts in order. Each call that writes is
-- one transaction, so a call that raises writes nothing; `prepare_completion` is several.
use astrbot_ex.Prelude.{
  ℕ, zero, suc, String, not, Option, List, [], ◌∷◌, ◌==◌, ◌=?◌, ◌&&◌, leb, length, Bool-cases,
  Option-cases, inl, inr,
}
use astrbot_ex.Actions.Error.{Result, ok, raise, runtime_error, raise_if}
use astrbot_ex.Wire.Returns.{Returns, returned, raised, then_returns, any_result}
use astrbot_ex.Wire.Messages.Feedback.{Feedback}
use astrbot_ex.Decision.Journal.{
  ledger, summary, Payload, GoalRow, DraftRow, AdmissionRow, Summary, Journal, Outside, registered,
  find_goal, find_admission, insert_goal, prepare_admission, confirm_admission, is_same, SourceKey,
  Draft,
}
use astrbot_ex.Decision.Journal.Facts.{
  LedgerEvent, ledger_draft, append, collect_event, collect_page, collect,
}
use astrbot_ex.Decision.Journal.Completion.{
  flush_round, stored, after_flush, put_draft, too_large, flush, store_draft, prepare_completion,
  find_draft, publish_goal, publish_completion, summary_draft,
}
use astrbot_ex.Decision.Journal.Pages.{is_fact, ack, set_acknowledged, find_fact}

pub data Call : Type 0 where
  registers : Payload → ℕ → Call
  prepares_admission : Payload → ℕ → Call
  confirms_admission : Payload → String → Call
  collects : List LedgerEvent → Call
  -- with the pages that the ledger gives for each cursor
  prepares_completion : (ℕ → List LedgerEvent) → DraftRow → Call
  publishes : String → String → ℕ → ℕ → Call
  acks : Feedback → Call

abbrev pub kept : Journal → Result Journal → Journal
kept j (ok j') = j'
kept j (raise e) = j

abbrev pub kept_second : Journal → Result (Option Feedback × Journal) → Journal
kept_second j (ok r) = r.1
kept_second j (raise e) = j

module _ (o : Outside) (command_of : String → ℕ → String) where
  unfoldable pub step : Call → Journal → Journal
  step (registers payload revision) j = kept j (insert_goal payload revision j)
  step (prepares_admission payload revision) j = kept j (prepare_admission payload revision j)
  step (confirms_admission payload result) j = kept j (confirm_admission payload result j)
  step (collects page) j = kept j (collect o page j)
  step (prepares_completion page d) j = (prepare_completion o page d j).0
  step (publishes session goal_id revision epoch) j =
      kept_second j (publish_completion o command_of session goal_id revision epoch j)
  step (acks feedback) j = (ack o feedback j).1

  unfoldable pub run : List Call → Journal → Journal
  unfolding step
  run [] j = j
  run (c ∷ cs) j = run cs (step c j)

-- A property that the writes keep is kept by every call.
module _ (o : Outside) (P : Journal → Type 0)
    (same : (j : Journal) (goals : List GoalRow) (drafts : List DraftRow)
        (admissions : List AdmissionRow) (cursor : ℕ)
      → P j
      → P (record j {
        goals = goals;
        drafts = drafts;
        admissions = admissions;
        ledger_cursor = cursor;
      }))
    (appended : (key : SourceKey) (d : Draft) (command_id owner : String) (j : Journal)
      → P j
      → Returns (λ r. P r.1) (append o key d command_id owner j))
    (acked : (n : ℕ) (j : Journal)
      → P j
      → P (record j { facts = set_acknowledged n j.facts })) where
  insert_goal_keeps : (p : Payload) (n : ℕ) (j : Journal) → P j → Returns P (insert_goal p n j)
  unfolding insert_goal
  insert_goal_keeps p n j v = elim (Option-cases (find_goal p.goal_id n j.goals)) [
    | inl e ↦
        rw (e, insert_goal)
          (elim (Bool-cases (leb j.goal_limit (length j.goals))) [
            | inl full ↦ rw full (raised _)
            | inr room ↦ rw room (returned _ (same j _ j.drafts j.admissions j.ledger_cursor v))
          ])
    | inr (g, e) ↦
        rw (e, insert_goal)
          (elim (Bool-cases (g.payload.encoded =? p.encoded)) [
            | inl same ↦ rw same (returned j v)
            | inr other ↦ rw other (raised _)
          ])
  ]

  prepare_admission_keeps :
      (p : Payload) (n : ℕ) (j : Journal) → P j → Returns P (prepare_admission p n j)
  unfolding prepare_admission
  prepare_admission_keeps p n j v = elim (Option-cases (find_admission p.request_id j.admissions)) [
    | inl e ↦
        rw (e, prepare_admission)
          (then_returns (insert_goal_keeps p n j v)
            λ j' v'. returned _ (same j' j'.goals j'.drafts _ j'.ledger_cursor v'))
    | inr (a, e) ↦
        rw (e, prepare_admission)
          (elim (Bool-cases (a.payload.encoded =? p.encoded && a.revision == n)) [
            | inl same ↦ rw same (returned j v)
            | inr other ↦ rw other (raised _)
          ])
  ]

  collect_event_keeps : (e : LedgerEvent) (j : Journal) → P j → Returns P (collect_event o e j)
  unfolding collect_event
  collect_event_keeps e j v = elim (Bool-cases (e.complete && e.ex_session =? j.session)) [
    | inr other ↦ rw other (returned j v)
    | inl own ↦ rw own (
        then_returns (any_result (ledger_draft e)) λ d _.
          then_returns (appended (ledger e.event_id) d e.command_id e.owner j v)
            λ r w. returned r.1 w)
  ]

  collect_page_keeps :
      (es : List LedgerEvent) (cursor : ℕ) (j : Journal)
      → P j
      → Returns (λ r. P r.1) (collect_page o es cursor j)
  unfolding collect_page
  collect_page_keeps [] cursor j v = returned _ v
  collect_page_keeps (e ∷ es) cursor j v =
      then_returns (collect_event_keeps e j v) λ j' v'. collect_page_keeps es e.event_seq j' v'

  collect_keeps : (es : List LedgerEvent) (j : Journal) → P j → Returns P (collect o es j)
  unfolding collect
  collect_keeps es j v =
      then_returns (collect_page_keeps es j.ledger_cursor j v)
        λ r w. returned _ (same r.1 r.1.goals r.1.drafts r.1.admissions _ w)

  confirm_keeps :
      (p : Payload) (result : String) (j : Journal) → P j → Returns P (confirm_admission p result j)
  unfolding confirm_admission
  confirm_keeps p result j v =
      elim (Bool-cases (is_same p (find_admission p.request_id j.admissions))) [
        | inl e ↦ rw e (returned _ (same j j.goals j.drafts _ j.ledger_cursor v))
        | inr e ↦ rw e (raised _)
      ]

  -- after a round that raised or returned
  flush_after :
      (page : ℕ → List LedgerEvent) (n : ℕ) (j : Journal) (r : Result Journal)
      → P j
      → Returns P r
      → ((j' : Journal) → P j' → P (flush o page n j').0)
      → P (flush_round j r (λ j'. flush o page n j')).0
  flush_after page n j _ v (raised e) next = v
  flush_after page n j _ v (returned j' v') next =
      elim (Bool-cases (j'.ledger_cursor == j.ledger_cursor)) [
        | inl e ↦ rw e v'
        | inr e ↦ rw e (next j' v')
      ]

  flush_keeps : (page : ℕ → List LedgerEvent) (n : ℕ) (j : Journal) → P j → P (flush o page n j).0
  unfolding flush
  flush_keeps page zero j v = v
  flush_keeps page (suc n) j v =
      flush_after page n j (collect o (page j.ledger_cursor) j) v
        (collect_keeps (page j.ledger_cursor) j v) (λ j' v'. flush_keeps page n j' v')

  store_draft_keeps : (d : DraftRow) (j : Journal) → P j → Returns P (store_draft o d j)
  unfolding store_draft
  store_draft_keeps d j v =
      then_returns
        (any_result (
          raise_if (not (registered d.goal_id d.revision j))
            (runtime_error "journal_goal_unregistered")))
        λ _ _.
          then_returns
            (any_result
              (raise_if (too_large o d.summary) (runtime_error "journal_summary_capacity")))
            λ _ _. returned _ (same j j.goals (put_draft d j.drafts) j.admissions j.ledger_cursor v)

  stored_keeps : (j : Journal) (r : Result Journal) → P j → Returns P r → P (stored j r).0
  stored_keeps j _ v (raised e) = v
  stored_keeps j _ v (returned j' w) = w

  after_flush_keeps :
      (d : DraftRow) (r : Journal × Result (Unit {0})) → P r.0 → P (after_flush o d r).0
  after_flush_keeps d (j, raise e) v = v
  after_flush_keeps d (j, ok done) v =
      stored_keeps j (store_draft o d j) v (store_draft_keeps d j v)

  publish_goal_keeps :
      (command_of : String → ℕ → String) (g : GoalRow) (s : Summary) (j : Journal)
      → P j
      → Returns (λ r. P r.1) (publish_goal o command_of g s j)
  unfolding publish_goal
  publish_goal_keeps command_of g s j v = elim (Option-cases g.summary) [
    | inr (old, e) ↦ rw (e, publish_goal) (returned (old, j) v)
    | inl e ↦
        rw (e, publish_goal)
          (then_returns
            (appended (summary g.payload.goal_id g.revision) (summary_draft g s)
              (command_of g.payload.goal_id g.revision) "ex-framework" j v)
            λ r w. returned _ (same r.1 _ r.1.drafts r.1.admissions r.1.ledger_cursor w))
  ]

  publish_keeps :
      (command_of : String → ℕ → String) (session goal_id : String) (revision epoch : ℕ)
      (j : Journal)
      → P j
      → Returns (λ r. P r.1) (publish_completion o command_of session goal_id revision epoch j)
  unfolding publish_completion
  publish_keeps command_of session goal_id revision epoch j v =
      elim (Option-cases (find_draft goal_id revision epoch j.drafts)) [
        | inl e ↦ rw (e, publish_completion) (raised _)
        | inr (d, e) ↦
            rw (e, publish_completion)
              (then_returns
                (any_result
                  (raise_if (not (session =? j.session)) (runtime_error "journal_draft_missing")))
                λ _ _. elim (Option-cases (find_goal goal_id revision j.goals)) [
                  | inl e' ↦ rw e' (raised _)
                  | inr (g, e') ↦ rw e' (publish_goal_keeps command_of g d.summary j v)
                ])
      ]

  ack_keeps : (feedback : Feedback) (j : Journal) → P j → P (ack o feedback j).1
  unfolding ack
  ack_keeps feedback j v =
      elim (Bool-cases (is_fact o feedback (find_fact feedback.event_seq j.facts))) [
        | inl e ↦ rw e (acked feedback.event_seq j v)
        | inr e ↦ rw e v
      ]

  kept_keeps : (j : Journal) (r : Result Journal) → P j → Returns P r → P (kept j r)
  kept_keeps j _ v (raised e) = v
  kept_keeps j _ v (returned j' w) = w

  kept_second_keeps :
      (j : Journal) (r : Result (Option Feedback × Journal))
      → P j
      → Returns (λ x. P x.1) r
      → P (kept_second j r)
  kept_second_keeps j _ v (raised e) = v
  kept_second_keeps j _ v (returned x w) = w

  step_keeps :
      (command_of : String → ℕ → String) (c : Call) (j : Journal) → P j → P (step o command_of c j)
  unfolding step prepare_completion
  step_keeps command_of (registers p n) j v = kept_keeps j _ v (insert_goal_keeps p n j v)
  step_keeps command_of (prepares_admission p n) j v =
      kept_keeps j _ v (prepare_admission_keeps p n j v)
  step_keeps command_of (confirms_admission p r) j v = kept_keeps j _ v (confirm_keeps p r j v)
  step_keeps command_of (collects page) j v = kept_keeps j _ v (collect_keeps page j v)
  step_keeps command_of (prepares_completion page d) j v =
      after_flush_keeps d (flush o page 80 j) (flush_keeps page 80 j v)
  step_keeps command_of (publishes session goal_id revision epoch) j v =
      kept_second_keeps j _ v (publish_keeps command_of session goal_id revision epoch j v)
  step_keeps command_of (acks feedback) j v = ack_keeps feedback j v

  pub run_keeps :
      (command_of : String → ℕ → String) (cs : List Call) (j : Journal)
      → P j
      → P (run o command_of cs j)
  unfolding run
  run_keeps command_of [] j v = v
  run_keeps command_of (c ∷ cs) j v =
      run_keeps command_of cs (step o command_of c j) (step_keeps command_of c j v)
