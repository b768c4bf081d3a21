-- ===== src/Actions/Checks/Laws.antt =====
-- What the shared guards establish, errors included.
use astrbot_ex.Prelude.{
  ℕ, ◌+◌, ◌<◌, String, ◌≡◌, ◌↔◌, ◌⊎◌, refl, Option, none, some, List, [], ◌∷◌, arith,
}
use astrbot_ex.Prelude.Table.{Table, find}
use astrbot_ex.Actions.Error.{ok}
use astrbot_ex.Actions.Checks.{max_sequence, check_revision, check_resources}

-- For a revision in range, `check_revision` succeeds exactly if the revision can still grow and the
-- expected revision is absent or the current one; the result is then the current one plus 1, and
-- stays in range. (An absent expectation counts the revision up all the same.)
pub check_revision_lem :
    (expected : Option ℕ) (current r : ℕ)
    → (check_revision expected current ≡ ok r) ↔ (
        ((expected ≡ none) ⊎ (expected ≡ some current))
        × (current < max_sequence)
        × (r ≡ current + 1))
unfolding check_revision
check_revision_lem none current r = ground arith
check_revision_lem (some e) current r = ground arith

-- each resource is free or held by the command
abbrev pub AllFree : Table String → String → List String → Type 0
AllFree holders c [] = Unit
AllFree holders c (r ∷ rs) =
    ((find r holders ≡ none) ⊎ (find r holders ≡ some c)) × AllFree holders c rs

-- `check_resources` succeeds exactly if each requested resource is free or held by the command.
pub check_resources_lem :
    (holders : Table String) (requested : List String) (command_id : String)
    → (check_resources holders requested command_id ≡ ok tt) ↔ AllFree holders command_id requested
unfolding check_resources
check_resources_lem holders [] c = (λ _. tt, λ _. refl)
check_resources_lem holders (r ∷ rs) c = ground (arith, check_resources_lem holders rs c)
