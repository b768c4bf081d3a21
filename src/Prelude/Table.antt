-- ===== src/Prelude/Table.antt =====
-- A table of rows under text keys, as an association list in the order of insertion: a SQLite table
-- with a TEXT PRIMARY KEY, or a Python dict. Laws are in `if` form.
use Prim.Native.String.{String}
use mathlib.Core.Path.{◌≡◌, refl}
use mathlib.Core.Bool.{true, false}
use mathlib.Core.Option.{Option, none, some}
use mathlib.Core.List.{List, [], ◌∷◌}
use native.Mathlib.Omega.{arith}
use astrbot_ex.Prelude.Tests.{if◌then◌else◌, ◌=?◌, String-discrete}

abbrev pub Table {ℓ} : Type ℓ → Type ℓ
Table V = List (String × V)

module _ {ℓ} {V : Type ℓ} where
  unfoldable pub find : String → Table V → Option V
  find k [] = none
  find k ((j, v) ∷ t) = if j =? k then some v else find k t

  -- `t[k] = v` on a key that is there, or a new row at the end
  unfoldable pub put : String → V → Table V → Table V
  put k v [] = (k, v) ∷ []
  put k v ((j, w) ∷ t) = if j =? k then (j, v) ∷ t else (j, w) ∷ put k v t

  unfoldable pub delete : String → Table V → Table V
  delete k [] = []
  delete k ((j, v) ∷ t) = let rest = delete k t in if j =? k then rest else (j, v) ∷ rest

  pub find-put :
      (k j : String) (v : V) (t : Table V)
      → find j (put k v t) ≡ (if k =? j then some v else find j t)
  unfolding find put
  find-put k j v [] = refl
  find-put k j v ((i, w) ∷ t) = ground (arith, find-put k j v t)

  pub find-delete :
      (k j : String) (t : Table V) → find j (delete k t) ≡ (if k =? j then none else find j t)
  unfolding find delete
  find-delete k j [] = ground arith
  find-delete k j ((i, w) ∷ t) = ground (arith, find-delete k j t)

-- No key stands twice.
abbrev pub Distinct {ℓ} : {V : Type ℓ} → Table V → Type ℓ
Distinct [] = Unit
Distinct ((k, v) ∷ t) = (find k t ≡ none) × Distinct t

module _ {ℓ} {V : Type ℓ} where
  pub put-Distinct : (k : String) (v : V) (t : Table V) → Distinct t → Distinct (put k v t)
  unfolding put
  put-Distinct k v [] d = (unfold find in refl, tt)
  put-Distinct k v ((j, w) ∷ t) d = ground (arith, put-Distinct k v t, find-put k j v t)

pub ruleset table_laws = (find-put, find-delete)

test_find : find "b" (put "b" true (put "a" false (("b", false) ∷ []))) ≡ some true
unfolding find put String-discrete
test_find = refl
