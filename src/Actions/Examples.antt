-- ===== src/Actions/Examples.antt =====
-- Runs of the life cycle and of the shared guards on concrete values.
use astrbot_ex.Prelude.{
  ℕ, ◌+◌, ◌<◌, ◌≡◌, ◌↔◌, ◌⊎◌, refl, true, false, Option, none, some, List, [], ◌∷◌,
}
use astrbot_ex.Actions.Error.{ok}
use astrbot_ex.Actions.Status.{
  Status, accepted, running, canceled, failed, eq_status, can_transition, cancel_outcome,
}
use astrbot_ex.Actions.Status.Laws.{follow, no_return, cancel_outcome_lem}
use astrbot_ex.Actions.Checks.{max_sequence, check_revision}
use astrbot_ex.Actions.Checks.Laws.{check_revision_lem}

abbrev reported : List Status
reported = running ∷ failed ∷ accepted ∷ []

no_return_example : eq_status (follow running reported) accepted ≡ false
unfolding can_transition
no_return_example = no_return accepted running reported refl refl

cancel_outcome_example :
    ((cancel_outcome true true ≡ some canceled) ↔ (true ≡ true))
    × ((cancel_outcome true true ≡ none) ↔ ((true ≡ false) × (true ≡ false)))
cancel_outcome_example = cancel_outcome_lem true true

abbrev expected : Option ℕ
expected = some 4

check_revision_example :
    (check_revision expected 4 ≡ ok 5)
    ↔ (((expected ≡ none) ⊎ (expected ≡ some 4)) × (4 < max_sequence) × (5 ≡ 4 + 1))
check_revision_example = check_revision_lem expected 4 5
