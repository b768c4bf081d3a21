-- ===== src/Decision/Journal/Once.antt =====
-- The numbering of the facts after any calls, and that a source never gives a second fact.
use astrbot_ex.Prelude.{
  ℕ, suc, String, ◌+◌, ◌≡◌, refl, subst, true, Option, none, some, List, [], ◌∷◌, arith, =?_iff,
  Bool-cases, Option-cases, inl, inr,
}
use astrbot_ex.Actions.Error.{ok}
use astrbot_ex.Wire.Fields.Laws.{IsId}
use astrbot_ex.Wire.Returns.{Returns, returned, then_returns, of_returns, any_result}
use astrbot_ex.Wire.Messages.Feedback.{Feedback}
use astrbot_ex.Decision.Journal.{
  SourceKey, ledger, summary, eq_key, Draft, Fact, GoalRow, DraftRow, AdmissionRow, Journal,
  Outside, open_journal,
}
use astrbot_ex.Decision.Journal.Facts.{find_source, is_consumed, make_fact, add_fact, append}
use astrbot_ex.Decision.Journal.Pages.{set_acknowledged}
use astrbot_ex.Decision.Journal.Invariant.{
  IsJournal, Consecutive, Consumed, append-IsJournal, eq_key_refl,
}
use astrbot_ex.Decision.Journal.Made.{make_fact-MadeAs}
use astrbot_ex.Decision.Journal.Calls.{Call, run, run_keeps}

acknowledged-Consecutive :
    (s : String) (k n h : ℕ) (fs : List Fact)
    → Consecutive s n fs h
    → Consecutive s n (set_acknowledged k fs) h
unfolding set_acknowledged
acknowledged-Consecutive s k n h [] c = c
acknowledged-Consecutive s k n h (f ∷ fs) c =
    ground (arith, acknowledged-Consecutive s k (suc n) h fs)

acknowledged-Consumed :
    (k : ℕ) (ts : List (SourceKey × ℕ)) (fs : List Fact)
    → Consumed ts fs
    → Consumed ts (set_acknowledged k fs)
unfolding set_acknowledged
acknowledged-Consumed k ts [] c = c
acknowledged-Consumed k ts (f ∷ fs) c = ground (arith, acknowledged-Consumed k ts fs)

acknowledged-IsJournal :
    (n : ℕ) (j : Journal)
    → IsJournal j
    → IsJournal (record j { facts = set_acknowledged n j.facts })
acknowledged-IsJournal n j v = record {
  session = v.session;
  page_size = v.page_size;
  retention = v.retention;
  trimmed = v.trimmed;
  facts = acknowledged-Consecutive j.session n j.trimmed j.head j.facts v.facts;
  sources = v.sources;
  consumed = acknowledged-Consumed n j.tombstones j.facts v.consumed;
}

-- the tables that the numbering does not depend on
other_rows-IsJournal :
    (j : Journal) (goals : List GoalRow) (drafts : List DraftRow) (admissions : List AdmissionRow)
    (cursor : ℕ)
    → IsJournal j
    → IsJournal (record j {
      goals = goals;
      drafts = drafts;
      admissions = admissions;
      ledger_cursor = cursor;
    })
other_rows-IsJournal j goals drafts admissions cursor v = record {
  session = v.session;
  page_size = v.page_size;
  retention = v.retention;
  trimmed = v.trimmed;
  facts = v.facts;
  sources = v.sources;
  consumed = v.consumed;
}

open-IsJournal :
    (session : String) (retention page_size goal_limit : ℕ) (j : Journal)
    → IsId session
    → open_journal session retention page_size goal_limit ≡ ok j
    → IsJournal j
unfolding open_journal
open-IsJournal session retention page_size goal_limit j h e = ground arith

-- From a new journal on, after any calls, the facts that are kept are the last ones up to the
-- retention, numbered without a hole up to the head, and as many sources were consumed as facts were
-- ever written.
pub run-IsJournal :
    (o : Outside) (command_of : String → ℕ → String) (cs : List Call) (session : String)
    (retention page_size goal_limit : ℕ) (j : Journal)
    → IsId session
    → open_journal session retention page_size goal_limit ≡ ok j
    → IsJournal (run o command_of cs j)
run-IsJournal o command_of cs session retention page_size goal_limit j h e =
    run_keeps o IsJournal other_rows-IsJournal (append-IsJournal o) acknowledged-IsJournal
      command_of cs j (open-IsJournal session retention page_size goal_limit j h e)

eq_key_eq : (a b : SourceKey) → eq_key a b ≡ true → a ≡ b
eq_key_eq (ledger a) (ledger b) h = ground (arith, =?_iff a b)
eq_key_eq (summary a m) (summary b n) h = ground (arith, =?_iff a b)
eq_key_eq (ledger a) (summary b n) h = ground arith
eq_key_eq (summary a m) (ledger b) h = ground arith

found-is_consumed :
    (key : SourceKey) (ts : List (SourceKey × ℕ)) (fs : List Fact) (f : Fact)
    → Consumed ts fs
    → find_source key fs ≡ some f
    → is_consumed key ts ≡ true
unfolding find_source
found-is_consumed key ts [] f c e = ground arith
found-is_consumed key ts (g ∷ fs) f c e = elim (Bool-cases (eq_key g.source_key key)) [
  | inl same ↦ subst (λ k. is_consumed k ts ≡ true) (eq_key_eq g.source_key key same) c.0
  | inr other ↦ found-is_consumed key ts fs f c.1 (rw other at e)
]

new_consumed :
    (key k : SourceKey) (n : ℕ) (ts : List (SourceKey × ℕ))
    → is_consumed key ts ≡ true
    → is_consumed key ((k, n) ∷ ts) ≡ true
unfolding is_consumed
new_consumed key k n ts h = ground arith

this_consumed :
    (key k : SourceKey) (n : ℕ) (ts : List (SourceKey × ℕ))
    → k ≡ key
    → is_consumed key ((k, n) ∷ ts) ≡ true
unfolding is_consumed
this_consumed key k n ts h = rw h (rw (eq_key_refl key) refl)

append_consumes :
    (o : Outside) (key : SourceKey) (d : Draft) (command_id owner : String) (j : Journal)
    → IsJournal j
    → Returns (λ r. is_consumed key r.1.tombstones ≡ true) (append o key d command_id owner j)
unfolding append
append_consumes o key d command_id owner j v = elim (Option-cases (find_source key j.facts)) [
  | inr (f, e) ↦
      rw (e, append)
        (returned (some f.feedback, j) (found-is_consumed key j.tombstones j.facts f v.consumed e))
  | inl e ↦
      rw (e, append)
        (elim (Bool-cases (is_consumed key j.tombstones)) [
          | inl e' ↦ rw e' (returned (none, j) e')
          | inr e' ↦ rw e' (
              then_returns
                (make_fact-MadeAs o j.session (j.head + 1) key d command_id owner v.session)
                λ f m.
                  returned (some f.feedback, add_fact f j)
                    (this_consumed key f.source_key f.seq j.tombstones m.1))
        ])
]

stays_consumed :
    (o : Outside) (k key : SourceKey) (d : Draft) (command_id owner : String) (j : Journal)
    → is_consumed k j.tombstones ≡ true
    → Returns (λ r. is_consumed k r.1.tombstones ≡ true) (append o key d command_id owner j)
unfolding append
stays_consumed o k key d command_id owner j v = elim (Option-cases (find_source key j.facts)) [
  | inr (f, e) ↦ rw (e, append) (returned (some f.feedback, j) v)
  | inl e ↦
      rw (e, append)
        (elim (Bool-cases (is_consumed key j.tombstones)) [
          | inl e' ↦ rw e' (returned (none, j) v)
          | inr e' ↦ rw e' (
              then_returns (any_result (make_fact o j.session (j.head + 1) key d command_id owner))
                λ f _.
                  returned (some f.feedback, add_fact f j)
                    (new_consumed k f.source_key f.seq j.tombstones v))
        ])
]

consumed_appends_nothing :
    (o : Outside) (key : SourceKey) (d : Draft) (command_id owner : String) (j : Journal)
    → is_consumed key j.tombstones ≡ true
    → (answer : Option Feedback) × (append o key d command_id owner j ≡ ok (answer, j))
unfolding append
consumed_appends_nothing o key d command_id owner j h =
    elim (Option-cases (find_source key j.facts)) [
      | inr (f, e) ↦ (some f.feedback, rw (e, append) refl)
      | inl e ↦ (none, rw (e, append) (rw h refl))
    ]

-- Once a source was appended, appending it again after any calls, with whatever fact, writes nothing,
-- also when its fact was trimmed.
pub appended_once :
    (o : Outside) (command_of : String → ℕ → String) (key : SourceKey) (d d' : Draft)
    (command_id owner command_id' owner' : String) (j : Journal) (r : Option Feedback × Journal)
    (cs : List Call)
    → IsJournal j
    → append o key d command_id owner j ≡ ok r
    → (answer : Option Feedback) × (append o key d' command_id' owner' (run o command_of cs r.1)
        ≡ ok (answer, run o command_of cs r.1))
appended_once o command_of key d d' command_id owner command_id' owner' j r cs v e =
    consumed_appends_nothing o key d' command_id' owner' (run o command_of cs r.1) (
      run_keeps o (λ i. is_consumed key i.tombstones ≡ true)
        (λ i goals drafts admissions cursor h. h)
        (λ k d'' c w i h. stays_consumed o key k d'' c w i h) (λ n i h. h) command_of cs r.1
        (of_returns (append o key d command_id owner j) r
          (append_consumes o key d command_id owner j v) e))
