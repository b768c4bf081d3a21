-- ===== src/Prelude/Text/Strip.antt =====
-- `str.strip` of a stripped text.
use Prim.Native.Char.{Char, code}
use Prim.Native.String.{String}
use mathlib.Core.Path.{◌≡◌, refl, ap, ◌∙◌}
use mathlib.Core.Logic.{inl, inr}
use mathlib.Core.Bool.{false}
use astrbot_ex.Prelude.Tests.{Bool-cases}
use astrbot_ex.Prelude.Text.{is_space, drop_spaces, unless_blank, strip_end, strip}

-- a text that is empty or begins with another character than a space
abbrev IsSolid : String → Type 0
IsSolid String.[] = Unit
IsSolid (String.◌∷◌ c s) = is_space (code c) ≡ false

drop_spaces-IsSolid : (s : String) → IsSolid (drop_spaces s)
unfolding drop_spaces
drop_spaces-IsSolid String.[] = tt
drop_spaces-IsSolid (String.◌∷◌ c s) = elim (Bool-cases (is_space (code c))) [
  | inl e ↦ rw e (drop_spaces-IsSolid s)
  | inr e ↦ rw e e
]

drop_spaces_solid : (s : String) → IsSolid s → drop_spaces s ≡ s
unfolding drop_spaces
drop_spaces_solid String.[] h = refl
drop_spaces_solid (String.◌∷◌ c s) h = rw h

unless_blank-IsSolid :
    (c : Char) (s : String) → is_space (code c) ≡ false → IsSolid (unless_blank c s)
unfolding unless_blank
unless_blank-IsSolid c String.[] h = rw h h
unless_blank-IsSolid c (String.◌∷◌ d s) h = h

strip_end-IsSolid : (s : String) → IsSolid s → IsSolid (strip_end s)
unfolding strip_end
strip_end-IsSolid String.[] h = tt
strip_end-IsSolid (String.◌∷◌ c s) h = unless_blank-IsSolid c (strip_end s) h

unless_blank_again :
    (c : Char) (t : String) → strip_end t ≡ t → strip_end (unless_blank c t) ≡ unless_blank c t
unfolding strip_end unless_blank
unless_blank_again c String.[] h = elim (Bool-cases (is_space (code c))) [
  | inl e ↦ rw e
  | inr e ↦ rw (e, e)
]
unless_blank_again c (String.◌∷◌ d t) h = rw h

strip_end_idem : (s : String) → strip_end (strip_end s) ≡ strip_end s
unfolding strip_end
strip_end_idem String.[] = refl
strip_end_idem (String.◌∷◌ c s) = unless_blank_again c (strip_end s) (strip_end_idem s)

pub strip_idem : (s : String) → strip (strip s) ≡ strip s
unfolding strip
strip_idem s =
    ap strip_end (
      drop_spaces_solid (strip_end (drop_spaces s))
        (strip_end-IsSolid (drop_spaces s) (drop_spaces-IsSolid s)))
    ∙ strip_end_idem (drop_spaces s)
