-- ===== src/Wire/Budget/Fits/Text.antt =====
-- The bytes of the compact JSON text of a value, in UTF-8, and that no more are charged than these or
-- fewer.
use Prim.Native.Char.{Char}
use astrbot_ex.Prelude.{ℕ, ◌+◌, ◌≤◌, String, Bool, true, false, none, some, arith}
use astrbot_ex.Wire.Json.{
  Json, Items, Members, null, boolean, integer, real, string, array, object, other, no_items, item,
  no_members, member,
}
use astrbot_ex.Wire.Budget.{comma}
use astrbot_ex.Wire.Budget.Fits.{
  compact_char, charge, chars_size, scalar_size, json_size, items_size, members_size,
}

unfoldable pub compact_chars : String → ℕ
compact_chars String.[] = 0
compact_chars (String.◌∷◌ c s) = compact_char c + compact_chars s

-- numbers and names are charged as they are
unfoldable pub compact_scalar : Json → ℕ
unfolding compact_chars
compact_scalar (string s) = compact_chars s + 2
compact_scalar v = scalar_size v

unfoldable mutual
  pub compact_size : Json → ℕ
  compact_size (array xs) = compact_items false xs + 2
  compact_size (object ms) = compact_members false ms + 2
  compact_size null = compact_scalar null
  compact_size (boolean b) = compact_scalar (boolean b)
  compact_size (integer negative n) = compact_scalar (integer negative n)
  compact_size (real r) = compact_scalar (real r)
  compact_size (string s) = compact_scalar (string s)
  compact_size other = 0

  pub compact_items : Bool → Items → ℕ
  compact_items started no_items = 0
  compact_items started (item v rest) = comma started + compact_size v + compact_items true rest

  pub compact_members : Bool → Members → ℕ
  compact_members started no_members = 0
  compact_members started (member none v rest) = compact_size v + compact_members true rest
  compact_members started (member (some key) v rest) =
      comma started + (compact_chars key + 2 + 1) + compact_size v + compact_members true rest

char_le : (c : Char) → compact_char c ≤ charge c
unfolding charge compact_char
char_le c = ground arith

chars_le : (s : String) → compact_chars s ≤ chars_size s
unfolding compact_chars chars_size
chars_le String.[] = omega arith
chars_le (String.◌∷◌ c s) = omega (arith, char_le c, chars_le s)

mutual
  unfolding compact_size json_size compact_scalar scalar_size

  pub compact-le : (v : Json) → compact_size v ≤ json_size v
  compact-le (array xs) = omega (arith, items_le xs false)
  compact-le (object ms) = omega (arith, members_le ms false)
  compact-le (string s) = omega (arith, chars_le s)
  compact-le null = omega arith
  compact-le (boolean b) = omega arith
  compact-le (integer negative n) = omega arith
  compact-le (real r) = omega arith
  compact-le other = omega arith

  items_le : (xs : Items) (started : Bool) → compact_items started xs ≤ items_size started xs
  items_le no_items started = omega arith
  items_le (item v rest) started = omega (arith, compact-le v, items_le rest true)

  members_le :
      (ms : Members) (started : Bool) → compact_members started ms ≤ members_size started ms
  members_le no_members started = omega arith
  members_le (member none v rest) started = omega (arith, compact-le v, members_le rest true)
  members_le (member (some key) v rest) started =
      omega (arith, chars_le key, compact-le v, members_le rest true)
