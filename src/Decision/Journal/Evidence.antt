-- ===== src/Decision/Journal/Evidence.antt =====
-- `completion` of the journal: the summary that proves a task complete.
use astrbot_ex.Prelude.{
  ℕ, String, ◌≡◌, ◌⊎◌, refl, sym, ap, ◌∙◌, Bool, true, false, Option, none, some, List, [], ◌∷◌,
  ◌==◌, ◌=?◌, ◌&&◌, if◌then◌else◌, inl, inr, arith,
}
use astrbot_ex.Actions.Error.{runtime_error, Result, ok, raise, ◌>>=◌}
use astrbot_ex.Wire.Json.{Json, boolean, object, no_members}
use astrbot_ex.Wire.Fields.{get_or, field}
use astrbot_ex.Wire.Messages.Feedback.{Feedback}
use astrbot_ex.Decision.Journal.{GoalRow, Journal}

-- `is True`
abbrev is_true : Json → Bool
is_true (boolean b) = b
is_true _ = false

-- `.get("verified") is True`, where what is no dictionary has no `get`
unfoldable pub is_verified : Json → Result Bool
is_verified (object ms) = ok (is_true (field "verified" ms))
is_verified v = raise (runtime_error "AttributeError")

-- the test of a row: the details are read only behind the other three tests
unfoldable pub completes : String → ℕ → Feedback → Result Bool
unfolding is_verified
completes task_id evidence_seq f =
    if f.task_id =? task_id && f.event_seq == evidence_seq && f.status =? "succeeded"
    then is_verified (get_or (object no_members) "completion_evidence" f.details)
    else ok false

-- A row, with the answer of those behind it. A summary of `null` has no entries.
abbrev pub try_summary :
    String → ℕ → Option (Option Feedback) → Result (Option Feedback) → Result (Option Feedback)
try_summary task_id evidence_seq none rest = rest
try_summary task_id evidence_seq (some none) rest = raise (runtime_error "TypeError")
try_summary task_id evidence_seq (some (some f)) rest =
    completes task_id evidence_seq f >>= λ yes. if yes then ok (some f) else rest

-- The loop over the rows. The statement gives them in no stated order; here it is that of registration.
unfoldable pub find_completion : String → ℕ → List GoalRow → Result (Option Feedback)
unfolding completes
find_completion task_id evidence_seq [] = ok none
find_completion task_id evidence_seq (g ∷ gs) =
    let rest = find_completion task_id evidence_seq gs in
    try_summary task_id evidence_seq g.summary rest

unfoldable pub completion : String → ℕ → Journal → Result (Option Feedback)
unfolding find_completion
completion task_id evidence_seq j = find_completion task_id evidence_seq j.goals

-- one of the rows has this summary
unfoldable pub HasSummary : Feedback → List GoalRow → Type 0
HasSummary f [] = ⊥
HasSummary f (g ∷ gs) = (g.summary ≡ some (some f)) ⊎ HasSummary f gs

completed :
    (task_id : String) (evidence_seq : ℕ) (f h : Feedback) (r : Result Bool)
    (rest : Result (Option Feedback))
    → completes task_id evidence_seq h ≡ r
    → (r >>= λ yes. if yes then ok (some h) else rest) ≡ ok (some f)
    → ((h ≡ f) × (completes task_id evidence_seq f ≡ ok true)) ⊎ (rest ≡ ok (some f))
completed task_id evidence_seq f h (raise x) rest c e = absurd (ground arith)
completed task_id evidence_seq f h (ok true) rest c e =
    let h-f : h ≡ f = ground (arith, e) in
    inl (h-f, ap (completes task_id evidence_seq) (sym h-f) ∙ c)
completed task_id evidence_seq f h (ok false) rest c e = inr e

tried :
    (task_id : String) (evidence_seq : ℕ) (f : Feedback) (s : Option (Option Feedback))
    (rest : Result (Option Feedback))
    → try_summary task_id evidence_seq s rest ≡ ok (some f)
    → ((s ≡ some (some f)) × (completes task_id evidence_seq f ≡ ok true)) ⊎ (rest ≡ ok (some f))
tried task_id evidence_seq f none rest e = inr e
tried task_id evidence_seq f (some none) rest e = absurd (ground arith)
tried task_id evidence_seq f (some (some h)) rest e =
    elim (completed task_id evidence_seq f h (completes task_id evidence_seq h) rest refl e) [
      | inl (h-f, c) ↦ inl (ap (λ x. some (some x)) h-f, c)
      | inr e' ↦ inr e'
    ]

find_completion-HasSummary :
    (task_id : String) (evidence_seq : ℕ) (f : Feedback) (gs : List GoalRow)
    → find_completion task_id evidence_seq gs ≡ ok (some f)
    → HasSummary f gs × (completes task_id evidence_seq f ≡ ok true)
unfolding find_completion HasSummary
find_completion-HasSummary task_id evidence_seq f [] e = absurd (ground arith)
find_completion-HasSummary task_id evidence_seq f (g ∷ gs) e =
    elim (tried task_id evidence_seq f g.summary (find_completion task_id evidence_seq gs) e) [
      | inl (s, c) ↦ (inl s, c)
      | inr e' ↦ let r = find_completion-HasSummary task_id evidence_seq f gs e' in (inr r.0, r.1)
    ]

completes_lem :
    (task_id : String) (evidence_seq : ℕ) (f : Feedback)
    → completes task_id evidence_seq f ≡ ok true
    → (f.task_id ≡ task_id) × (f.event_seq ≡ evidence_seq) × (f.status ≡ "succeeded")
unfolding completes
completes_lem task_id evidence_seq f e = ground arith

-- A summary that proves a task complete is stored with one of the session's goals, is a success of that
-- task, and has the asked sequence.
pub completion-HasSummary :
    (task_id : String) (evidence_seq : ℕ) (f : Feedback) (j : Journal)
    → completion task_id evidence_seq j ≡ ok (some f)
    → HasSummary f j.goals
      × (f.task_id ≡ task_id)
      × (f.event_seq ≡ evidence_seq)
      × (f.status ≡ "succeeded")
unfolding completion
completion-HasSummary task_id evidence_seq f j e =
    let r = find_completion-HasSummary task_id evidence_seq f j.goals e in
    let c = completes_lem task_id evidence_seq f r.1 in (r.0, c.0, c.1, c.2)
