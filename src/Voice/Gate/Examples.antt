-- ===== src/Voice/Gate/Examples.antt =====
-- Runs of a gate, and the theorems about it at inputs.
use astrbot_ex.Prelude.{◌≡◌, refl, true, false, none, some, List, [], ◌∷◌, String-discrete}
use astrbot_ex.Prelude.Text.{strip, text_take}
use astrbot_ex.Actions.Error.{Result, ok, raise, runtime_error}
use astrbot_ex.Voice.Gate.{
  Regex, Gate, GateState, Scores, Judgment, is_active, reported_quote_only, scores_of, judge,
  commit, evaluate, open_gate,
}
use astrbot_ex.Voice.Gate.Laws.{
  Call, commits, answers, run, quiet_persists, Ignored, quotation-Ignored,
}

-- everything is a quotation
abbrev quoting : Regex
quoting = record {
  full_match = λ p t. true;
  search = λ p t. false;
  before = λ p t. "";
  remove = λ p t. t;
}

abbrev silent : GateState → Result Scores
silent s = raise (runtime_error "GateError")

abbrev gate : Gate
gate = record {
  threshold = 850;
  forward_threshold = 850;
  quiet_threshold = 850;
  followup = 25000;
  history = [];
  overheard = [];
  last_address = some 10;
  quiet = false;
}

test_open : open_gate 850 25000 none 850 ≡ ok (record gate { last_address = none })
unfolding open_gate
test_open = refl

abbrev hush : Judgment
hush = record { allowed = false; quiet = true; captured_at = 20 }

abbrev overhearing : List Call
overhearing =
    commits "hm" (record { allowed = false; quiet = false; captured_at = 30 })
    ∷ answers "be quiet" "sure" none true 40
    ∷ []

quiet_persists_example :
    ((run overhearing (commit "be quiet" hush gate)).quiet ≡ true)
    × (is_active 50 (run overhearing (commit "be quiet" hush gate)) ≡ false)
quiet_persists_example = quiet_persists "be quiet" hush overhearing gate 50 refl (refl, tt)

test_quote : reported_quote_only quoting "she says: stop" ≡ true
unfolding reported_quote_only
test_quote = refl

abbrev background : Judgment
background = record { allowed = false; quiet = false; captured_at = 20 }

abbrev after_quote : Gate
after_quote = record gate { overheard = (20, "she says: stop") ∷ [] }

test_evaluate :
    evaluate quoting silent false false true "she says: stop" 20 gate ≡ ok (background, after_quote)
unfolding evaluate scores_of reported_quote_only judge commit strip text_take String-discrete
test_evaluate = refl

quotation-Ignored_example : Ignored gate (background, after_quote)
quotation-Ignored_example =
    quotation-Ignored quoting silent false false true "she says: stop" 20 gate
      (background, after_quote) test_quote test_evaluate
