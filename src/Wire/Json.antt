-- ===== src/Wire/Json.antt =====
-- JSON values as the parsers of astrbot_ex/core/actions/models.py meet them, and the sizes of their
-- texts: `_string_json_size`, `_scalar_json_size`.
use Prim.Native.Char.{Char, code, len_utf8}
use astrbot_ex.Prelude.{
  ℕ, zero, suc, ◌+◌, ◌/◌, String, Bool, true, false, Option, none, some, ◌||◌, ltb, ◌==◌,
  if◌then◌else◌,
}
use astrbot_ex.Prelude.Text.{text_length}

-- A value is a tree, so it has no cycle. A text has no lone surrogates.
mutual
  pub data Json : Type 0 where
    null : Json
    boolean : Bool → Json
    -- whether it is negative, and the absolute value
    integer : Bool → ℕ → Json
    -- the `repr` of a float, if it is finite
    real : Option String → Json
    string : String → Json
    array : Items → Json
    object : Members → Json
    -- any value that is not JSON
    other : Json

  pub data Items : Type 0 where
    no_items : Items
    item : Json → Items → Items

  -- A key that is not a text is `none`.
  pub data Members : Type 0 where
    no_members : Members
    member : Option String → Json → Members → Members

abbrev pub max_json_integer_digits : ℕ
max_json_integer_digits = 4096

unfoldable pub char_size : Char → ℕ
char_size c = if ltb (code c) 32 then 6 else if code c == 34 || code c == 92 then 2 else len_utf8 c

-- the loop over the characters; `none` is -1, above the limit
unfoldable pub add_chars : ℕ → ℕ → String → Option ℕ
unfolding char_size
add_chars limit size String.[] = some size
add_chars limit size (String.◌∷◌ c s) =
    let rest = add_chars limit (size + char_size c) s in
    if ltb limit (size + char_size c) then none else rest

-- `_string_json_size`
unfoldable pub string_json_size : ℕ → String → Option ℕ
unfolding add_chars
string_json_size limit s = if ltb limit 2 then none else add_chars limit 2 s

-- `len(str(n))`, up to one more than the fuel
unfoldable pub digits : ℕ → ℕ → ℕ
digits zero n = 1
digits (suc fuel) n = elim (ltb n 10) [ true ↦ 1 | false ↦ suc (digits fuel (n / 10)) ]

abbrev pub digit_count : ℕ → ℕ
digit_count n = digits max_json_integer_digits n

abbrev pub sign_size : Bool → ℕ
sign_size true = 1
sign_size false = 0

-- The answers of `_scalar_json_size`: a size, -1 or `None`.
pub data ScalarSize : Type 0 where
  size : ℕ → ScalarSize
  too_big not_json : ScalarSize

abbrev pub bounded : ℕ → ℕ → ScalarSize
bounded limit n = if ltb limit n then too_big else size n

abbrev pub of_text : Option ℕ → ScalarSize
of_text none = too_big
of_text (some n) = size n

-- `_scalar_json_size`; a number with more bits than the limit of bits has more digits than the limit.
unfoldable pub scalar_json_size : ℕ → Json → ScalarSize
unfolding string_json_size
scalar_json_size limit null = bounded limit 4
scalar_json_size limit (boolean b) = bounded limit (if b then 4 else 5)
scalar_json_size limit (string s) = of_text (string_json_size limit s)
scalar_json_size limit (integer negative n) =
    if ltb max_json_integer_digits (digit_count n)
    then too_big
    else bounded limit (digit_count n + sign_size negative)
scalar_json_size limit (real none) = not_json
scalar_json_size limit (real (some r)) = bounded limit (text_length r)
scalar_json_size limit _ = not_json
