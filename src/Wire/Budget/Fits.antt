-- ===== src/Wire/Budget/Fits.antt =====
-- What the walk accepts, said without it: the depth, the number of nodes and the length of the text of a
-- value, each by recursion on it. The walk charges six bytes for a control character, also where the
-- compact text has an escape of two; Fits/Text compares the two lengths.
pub mod Sound
pub mod Complete
pub mod Text
pub mod Exact
use Prim.Native.String
use Prim.Native.Char.{Char, code, len_utf8}
use astrbot_ex.Prelude.{
  ℕ, suc, ◌+◌, ◌-◌, ◌≤◌, String, ◌≡◌, refl, Bool, true, false, ◌&&◌, ◌||◌, ◌==◌, Option, none, some,
  max, ltb, leb, arith, if◌then◌else◌,
}
use astrbot_ex.Prelude.Text.{text_length}
use astrbot_ex.Wire.Json.{
  Json, Items, Members, null, boolean, integer, real, string, array, object, other, no_items, item,
  no_members, member, char_size, add_chars, string_json_size, digit_count, sign_size,
  max_json_integer_digits, ScalarSize, size, too_big, not_json, bounded, scalar_json_size,
}
use astrbot_ex.Wire.Budget.{comma, max_validation_depth, max_validation_nodes, max_validation_bytes}

-- a character that JSON escapes with one letter or sign: quote, backslash, \b, \t, \n, \f, \r
abbrev has_short_escape : ℕ → Bool
has_short_escape n = n == 34 || n == 92 || n == 8 || n == 9 || n == 10 || n == 12 || n == 13

-- the bytes of a character in compact JSON text, in UTF-8
unfoldable pub compact_char : Char → ℕ
compact_char c = if has_short_escape (code c) then 2 else if ltb (code c) 32 then 6 else len_utf8 c

-- the bytes that are charged for it
unfoldable pub charge : Char → ℕ
charge c = if ltb (code c) 32 then 6 else compact_char c

-- what is charged for a text, less the quotes
unfoldable pub chars_size : String → ℕ
unfolding charge
chars_size String.[] = 0
chars_size (String.◌∷◌ c s) = charge c + chars_size s

-- what is charged for a scalar, and 0 for what has none
unfoldable pub scalar_size : Json → ℕ
scalar_size null = 4
scalar_size (boolean b) = if b then 4 else 5
scalar_size (integer negative n) = digit_count n + sign_size negative
scalar_size (real (some r)) = text_length r
scalar_size (string s) = chars_size s + 2
scalar_size v = 0

-- whether a scalar has a text
unfoldable pub has_text : Json → Bool
has_text null = true
has_text (boolean b) = true
has_text (integer negative n) = leb (digit_count n) max_json_integer_digits
has_text (real (some r)) = true
has_text (string s) = true
has_text v = false

unfoldable mutual
  -- what is charged for the compact text
  pub json_size : Json → ℕ
  json_size (array xs) = items_size false xs + 2
  json_size (object ms) = members_size false ms + 2
  json_size null = scalar_size null
  json_size (boolean b) = scalar_size (boolean b)
  json_size (integer negative n) = scalar_size (integer negative n)
  json_size (real r) = scalar_size (real r)
  json_size (string s) = scalar_size (string s)
  json_size other = 0

  pub items_size : Bool → Items → ℕ
  items_size started no_items = 0
  items_size started (item v rest) = comma started + json_size v + items_size true rest

  pub members_size : Bool → Members → ℕ
  members_size started no_members = 0
  members_size started (member none v rest) = json_size v + members_size true rest
  members_size started (member (some key) v rest) =
      comma started + (chars_size key + 2 + 1) + json_size v + members_size true rest

unfoldable mutual
  -- the values inside a value
  pub inner : Json → ℕ
  inner (array xs) = nodes_items xs
  inner (object ms) = nodes_members ms
  inner null = 0
  inner (boolean b) = 0
  inner (integer negative n) = 0
  inner (real r) = 0
  inner (string s) = 0
  inner other = 0

  pub nodes_items : Items → ℕ
  nodes_items no_items = 0
  nodes_items (item v rest) = suc (inner v) + nodes_items rest

  pub nodes_members : Members → ℕ
  nodes_members no_members = 0
  nodes_members (member key v rest) = suc (inner v) + nodes_members rest

unfoldable mutual
  -- how deep the values inside are nested
  pub height : Json → ℕ
  height (array xs) = height_items xs
  height (object ms) = height_members ms
  height null = 0
  height (boolean b) = 0
  height (integer negative n) = 0
  height (real r) = 0
  height (string s) = 0
  height other = 0

  pub height_items : Items → ℕ
  height_items no_items = 0
  height_items (item v rest) = max (height v + 1) (height_items rest)

  pub height_members : Members → ℕ
  height_members no_members = 0
  height_members (member key v rest) = max (height v + 1) (height_members rest)

unfoldable mutual
  -- finite numbers, texts as keys, and nothing that is not JSON
  pub is_json : Json → Bool
  is_json (array xs) = are_json xs
  is_json (object ms) = have_json ms
  is_json null = true
  is_json (boolean b) = true
  is_json (integer negative n) = has_text (integer negative n)
  is_json (real r) = has_text (real r)
  is_json (string s) = true
  is_json other = false

  pub are_json : Items → Bool
  are_json no_items = true
  are_json (item v rest) = is_json v && are_json rest

  pub have_json : Members → Bool
  have_json no_members = true
  have_json (member none v rest) = false
  have_json (member (some key) v rest) = is_json v && have_json rest

abbrev pub Within : Bool → ℕ → ℕ → ℕ → Type 0
Within valid deep count bytes =
    (valid ≡ true)
    × (deep ≤ max_validation_depth)
    × (count ≤ max_validation_nodes)
    × (bytes ≤ max_validation_bytes)

-- JSON with at most 32 levels, 20,000 values and 1 MiB that is charged for text
abbrev pub Fits : Json → Type 0
Fits v = Within (is_json v) (height v) (inner v + 1) (json_size v)

char_size_lem : (c : Char) → char_size c ≡ charge c
unfolding char_size charge compact_char
char_size_lem c = ground arith

add_chars_lem :
    (limit n : ℕ) (s : String)
    → n ≤ limit
    → add_chars limit n s ≡ (if ltb limit (n + chars_size s) then none else some (n + chars_size s))
unfolding add_chars chars_size
add_chars_lem limit n String.[] h = ground arith
add_chars_lem limit n (String.◌∷◌ c s) h =
    ground (arith, char_size_lem c, add_chars_lem limit (n + char_size c) s)

pub string_json_size_lem :
    (limit : ℕ) (s : String)
    → string_json_size limit s
      ≡ (if ltb limit (chars_size s + 2) then none else some (chars_size s + 2))
unfolding string_json_size
string_json_size_lem limit s = ground (arith, add_chars_lem limit 2 s)

-- A scalar's size is reported if it has a text within the limit.
pub scalar_json_size_lem :
    (limit n : ℕ) (v : Json)
    → scalar_json_size limit v ≡ size n
    → (has_text v ≡ true) × (n ≡ scalar_size v) × (n ≤ limit)
unfolding scalar_json_size scalar_size has_text
scalar_json_size_lem limit n null h = ground arith
scalar_json_size_lem limit n (boolean b) h = ground arith
scalar_json_size_lem limit n (integer negative m) h = ground arith
scalar_json_size_lem limit n (real none) h = ground arith
scalar_json_size_lem limit n (real (some r)) h = ground arith
scalar_json_size_lem limit n (string s) h = ground (arith, string_json_size_lem limit s)
scalar_json_size_lem limit n v h = ground arith

pub scalar_json_size_of_fits :
    (limit : ℕ) (v : Json)
    → has_text v ≡ true
    → scalar_size v ≤ limit
    → scalar_json_size limit v ≡ size (scalar_size v)
unfolding scalar_json_size scalar_size has_text
scalar_json_size_of_fits limit null h k = ground arith
scalar_json_size_of_fits limit (boolean b) h k = ground arith
scalar_json_size_of_fits limit (integer negative m) h k = ground arith
scalar_json_size_of_fits limit (real (some r)) h k = ground arith
scalar_json_size_of_fits limit (string s) h k = ground (arith, string_json_size_lem limit s)
scalar_json_size_of_fits limit v h k = ground arith
