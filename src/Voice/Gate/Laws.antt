-- ===== src/Voice/Gate/Laws.antt =====
-- Quiet stays, and quotations are not addresses.
use astrbot_ex.Prelude.{
  ℕ, String, ◌≡◌, refl, Bool, true, false, Option, none, some, List, [], ◌∷◌, ◌=?◌, ◌||◌, ltb,
  arith, if◌then◌else◌, Option-cases, inl, inr,
}
use mathlib.Core.List.{reverse}
use astrbot_ex.Prelude.Text.{text_take, strip, text_length}
use astrbot_ex.Actions.Error.{Result, ok, raise_if, runtime_error}
use astrbot_ex.Wire.Returns.{Returns, returned, then_returns, any_result, of_returns}
use astrbot_ex.Voice.Gate.{
  Regex, Gate, GateState, Scores, Judgment, is_active, reported_quote_only, scores_of, judge,
  commit, evaluate, answer_newest, answered,
}

-- the calls that change a gate, but the reset
pub data Call : Type 0 where
  commits : String → Judgment → Call
  answers : String → String → Option ℕ → Bool → ℕ → Call

unfoldable pub step : Call → Gate → Gate
unfolding commit answered
step (commits text r) g = commit text r g
step (answers user answer captured_at finished now) g =
    answered user answer captured_at finished now g

unfoldable pub run : List Call → Gate → Gate
unfolding step
run [] g = g
run (c ∷ cs) g = run cs (step c g)

-- no utterance was let through
abbrev pub NoneAllowed : List Call → Type 0
NoneAllowed [] = Unit
NoneAllowed (commits text r ∷ cs) = (r.allowed ≡ false) × NoneAllowed cs
NoneAllowed (answers user answer captured_at finished now ∷ cs) = NoneAllowed cs

abbrev pub IsQuiet : Gate → Type 0
IsQuiet g = (g.quiet ≡ true) × (g.last_address ≡ none)

answered-IsQuiet :
    (user answer : String) (captured_at : Option ℕ) (finished : Bool) (now : ℕ) (g : Gate)
    → IsQuiet g
    → IsQuiet (answered user answer captured_at finished now g)
unfolding answered
answered-IsQuiet user answer captured_at finished now g h =
    elim (Option-cases (
      answer_newest (text_take 1200 user) (text_take 1600 answer) captured_at
        (reverse g.history))) [
          | inl e ↦ rw (e, answered) h
          | inr (es, e) ↦ rw (e, answered) (ground arith)
        ]

commit-IsQuiet :
    (text : String) (r : Judgment) (g : Gate)
    → r.allowed ≡ false
    → IsQuiet g
    → IsQuiet (commit text r g)
unfolding commit
commit-IsQuiet text r g a h = ground arith

run-IsQuiet : (cs : List Call) (g : Gate) → NoneAllowed cs → IsQuiet g → IsQuiet (run cs g)
unfolding run step
run-IsQuiet [] g a h = h
run-IsQuiet (commits text r ∷ cs) g a h =
    run-IsQuiet cs (commit text r g) a.1 (commit-IsQuiet text r g a.0 h)
run-IsQuiet (answers user answer captured_at finished now ∷ cs) g a h =
    run-IsQuiet cs (answered user answer captured_at finished now g) a
      (answered-IsQuiet user answer captured_at finished now g h)

commit_quiet-IsQuiet :
    (text : String) (r : Judgment) (g : Gate) → r.quiet ≡ true → IsQuiet (commit text r g)
unfolding commit
commit_quiet-IsQuiet text r g q = ground arith

-- After a quiet request, whatever is overheard and whatever answers end, the gate stays quiet and no
-- exchange is active at any time, until an utterance is let through again.
pub quiet_persists :
    (text : String) (r : Judgment) (cs : List Call) (g : Gate) (now : ℕ)
    → r.quiet ≡ true
    → NoneAllowed cs
    → ((run cs (commit text r g)).quiet ≡ true) × (is_active now (run cs (commit text r g)) ≡ false)
unfolding is_active
quiet_persists text r cs g now q a =
    let h = run-IsQuiet cs (commit text r g) a (commit_quiet-IsQuiet text r g q) in
    (h.0, rw (h.1, is_active) refl)

abbrev pub Ignored : Gate → Judgment × Gate → Type 0
Ignored g p =
    (p.0.allowed ≡ false)
    × (p.0.quiet ≡ false)
    × (p.1.history ≡ g.history)
    × (p.1.last_address ≡ g.last_address)
    × (p.1.quiet ≡ g.quiet)

quotation_scores :
    (re : Regex) (client : GateState → Result Scores) (text : String) (now : ℕ) (g : Gate)
    → reported_quote_only re text ≡ true
    → scores_of re client text now g
      ≡ ok (record { addressed = some 0; forward = some 0; quiet = some 0 })
unfolding scores_of
quotation_scores re client text now g h = rw (h, scores_of) refl

judged_background :
    (does_commit : Bool) (text : String) (now : ℕ) (g : Gate)
    → Ignored g (judge g now 0 0 0, if does_commit then commit text (judge g now 0 0 0) g else g)
unfolding judge commit
judged_background true text now g = (refl, refl, refl, refl, refl)
judged_background false text now g = (refl, refl, refl, refl, refl)

evaluated_quotation :
    (re : Regex) (client : GateState → Result Scores) (is_set is_set' does_commit : Bool)
    (text : String) (now : ℕ) (g : Gate)
    → reported_quote_only re text ≡ true
    → Returns (Ignored g) (evaluate re client is_set is_set' does_commit text now g)
unfolding evaluate
evaluated_quotation re client is_set is_set' does_commit text now g h =
    rw (quotation_scores re client text now g h) (
      then_returns
        (any_result
          (raise_if (strip text =? "" || ltb 4000 (text_length text)) (runtime_error "GateError")))
        λ _ _. then_returns (any_result (raise_if is_set (runtime_error "GateError"))) λ _ _.
          then_returns (any_result (raise_if is_set' (runtime_error "GateError")))
            λ _ _. returned _ (judged_background does_commit text now g))

-- An utterance that is a reported quotation as a whole is never let through and asks for no quiet,
-- whatever the client would say, and it changes neither the exchanges nor whether one is active.
pub quotation-Ignored :
    (re : Regex) (client : GateState → Result Scores) (is_set is_set' does_commit : Bool)
    (text : String) (now : ℕ) (g : Gate) (r : Judgment × Gate)
    → reported_quote_only re text ≡ true
    → evaluate re client is_set is_set' does_commit text now g ≡ ok r
    → Ignored g r
quotation-Ignored re client is_set is_set' does_commit text now g r h e =
    of_returns (evaluate re client is_set is_set' does_commit text now g) r
      (evaluated_quotation re client is_set is_set' does_commit text now g h) e
