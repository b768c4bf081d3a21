-- ===== src/Prelude/Text.antt =====
-- Python's `str`: `strip`, `len`, order by code points and sorted lists of texts.
pub mod Strip
use Prim.Native.Nat.{ℕ, zero, suc, Ordering}
use Prim.Native.Char.{Char, code}
use Prim.Native.String.{String, compare}
use mathlib.Core.Path.{◌≡◌, refl}
use mathlib.Core.Bool.{Bool, true, false, ◌&&◌, ◌||◌}
use mathlib.Core.List.{List, [], ◌∷◌}
use astrbot_ex.Prelude.Tests.{if◌then◌else◌, leb, ◌==◌}

-- the code points that `str.isspace` accepts
unfoldable pub is_space : ℕ → Bool
is_space c =
    (leb 9 c && leb c 13)
    || (leb 28 c && leb c 32)
    || c == 133
    || c == 160
    || c == 5760
    || (leb 8192 c && leb c 8202)
    || c == 8232
    || c == 8233
    || c == 8239
    || c == 8287
    || c == 12288

drop_spaces : String → String
drop_spaces String.[] = String.[]
drop_spaces (String.◌∷◌ c s) =
    let rest = drop_spaces s in if is_space (code c) then rest else String.◌∷◌ c s

-- `c` in front of a stripped text
unless_blank : Char → String → String
unless_blank c String.[] = if is_space (code c) then String.[] else String.◌∷◌ c String.[]
unless_blank c (String.◌∷◌ d s) = String.◌∷◌ c (String.◌∷◌ d s)

strip_end : String → String
strip_end String.[] = String.[]
strip_end (String.◌∷◌ c s) = unless_blank c (strip_end s)

-- `s.strip()`
unfoldable pub strip : String → String
unfolding is_space drop_spaces unless_blank strip_end
strip s = strip_end (drop_spaces s)

-- `len(s)`
abbrev pub text_length : String → ℕ
text_length String.[] = 0
text_length (String.◌∷◌ c s) = suc (text_length s)

-- `s <= t` on texts
abbrev pub text_le : String → String → Bool
text_le s t = elim (compare s t) [ Ordering.gt ↦ false | _ ↦ true ]

-- `s < t` on texts
abbrev pub text_lt : String → String → Bool
text_lt s t = elim (compare s t) [ Ordering.lt ↦ true | _ ↦ false ]

unfoldable pub insert_sorted : String → List String → List String
insert_sorted s [] = s ∷ []
insert_sorted s (t ∷ ts) = if text_le s t then s ∷ t ∷ ts else t ∷ insert_sorted s ts

-- `sorted(names)`
unfoldable pub sort : List String → List String
unfolding insert_sorted
sort [] = []
sort (s ∷ ss) = insert_sorted s (sort ss)

strip_both : strip "  a b " ≡ "a b"
unfolding strip
strip_both = refl

sort_three : sort ("lidar" ∷ "arm" ∷ "base" ∷ []) ≡ "arm" ∷ "base" ∷ "lidar" ∷ []
unfolding sort
sort_three = refl

-- `s[:n]`
unfoldable pub text_take : ℕ → String → String
text_take zero s = String.[]
text_take (suc n) String.[] = String.[]
text_take (suc n) (String.◌∷◌ c s) = String.◌∷◌ c (text_take n s)
