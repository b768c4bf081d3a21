-- ===== src/Wire/Budget/Fits/Complete.antt =====
-- A value that fits is accepted.
use astrbot_ex.Prelude.{
  ℕ, ◌+◌, ◌-◌, ◌≤◌, String, ◌≡◌, refl, ◌∙◌, Bool, true, false, none, some, arith,
}
use astrbot_ex.Wire.Json.{
  Json, Items, Members, null, boolean, integer, real, string, array, object, other, no_items, item,
  no_members, member, scalar_json_size,
}
use astrbot_ex.Wire.Budget.{
  comma, max_validation_depth, max_validation_nodes, max_validation_bytes, is_over, is_crowded,
  is_deep,
}
use astrbot_ex.Wire.Budget.Weight.{
  weight, weigh_scalar, weigh_key, weigh_value, weigh_items, weigh_members, add_bytes, count_node,
}
use astrbot_ex.Wire.Budget.Fits.{
  Within, chars_size, scalar_size, has_text, json_size, items_size, members_size, inner,
  nodes_items, nodes_members, height, height_items, height_members, is_json, are_json, have_json,
  string_json_size_lem, scalar_json_size_of_fits,
}

add_fits : (k n b : ℕ) → b + k ≤ max_validation_bytes → add_bytes k n b ≡ weight n (b + k)
unfolding is_over
add_fits k n b h = ground arith

node_fits :
    (d n b : ℕ)
    → n + 1 ≤ max_validation_nodes
    → d ≤ max_validation_depth
    → count_node d n b ≡ weight (n + 1) b
unfolding is_crowded is_deep
node_fits d n b hn hd = ground arith

scalar_fits :
    (v : Json) (n b : ℕ)
    → has_text v ≡ true
    → b + scalar_size v ≤ max_validation_bytes
    → weigh_scalar (scalar_json_size (max_validation_bytes - b) v) n b
      ≡ weight n (b + scalar_size v)
unfolding is_over
scalar_fits v n b h k =
    rw (scalar_json_size_of_fits (max_validation_bytes - b) v h (omega arith)) (ground arith)

key_fits :
    (key : String) (n b : ℕ)
    → b + (chars_size key + 2 + 1) ≤ max_validation_bytes
    → weigh_key (some key) n b ≡ weight n (b + (chars_size key + 2 + 1))
unfolding is_over
key_fits key n b h = ground (arith, string_json_size_lem (max_validation_bytes - b) key)

mutual
  unfolding json_size inner height is_json weigh_value has_text

  pub value_fits :
      (v : Json) (d n b : ℕ)
      → Within (is_json v) (d + height v) (n + inner v) (b + json_size v)
      → weigh_value v d n b ≡ weight (n + inner v) (b + json_size v)
  value_fits null d n b h = scalar_fits null n b refl h.3 ∙ ground arith
  value_fits (boolean x) d n b h = scalar_fits (boolean x) n b refl h.3 ∙ ground arith
  value_fits (integer x y) d n b h = scalar_fits (integer x y) n b h.0 h.3 ∙ ground arith
  value_fits (real (some r)) d n b h = scalar_fits (real (some r)) n b refl h.3 ∙ ground arith
  value_fits (string s) d n b h = scalar_fits (string s) n b refl h.3 ∙ ground arith
  value_fits other d n b h = ground arith
  value_fits (real none) d n b h = ground arith
  value_fits (array xs) d n b h = ground (
    arith,
    add_fits 1 n b,
    items_fit xs false d n (b + 1),
    add_fits 1 (n + nodes_items xs) (b + 1 + items_size false xs),
  )
  value_fits (object xs) d n b h = ground (
    arith,
    add_fits 1 n b,
    members_fit xs false d n (b + 1),
    add_fits 1 (n + nodes_members xs) (b + 1 + members_size false xs),
  )

  items_fit :
      (xs : Items) (started : Bool) (d n b : ℕ)
      → Within (are_json xs) (d + height_items xs) (n + nodes_items xs) (b + items_size started xs)
      → weigh_items started xs (d + 1) n b ≡ weight (n + nodes_items xs) (b + items_size started xs)
  items_fit no_items started d n b h = ground arith
  items_fit (item v rest) started d n b h = ground (
    arith,
    node_fits (d + 1) n (b + comma started),
    value_fits v (d + 1) (n + 1) (b + comma started),
    items_fit rest true d (n + 1 + inner v) (b + comma started + json_size v),
  )

  members_fit :
      (xs : Members) (started : Bool) (d n b : ℕ)
      → Within
          (have_json xs)
          (d + height_members xs)
          (n + nodes_members xs)
          (b + members_size started xs)
      → weigh_members started xs (d + 1) n b
        ≡ weight (n + nodes_members xs) (b + members_size started xs)
  members_fit no_members started d n b h = ground arith
  members_fit (member none v rest) started d n b h = ground arith
  members_fit (member (some key) v rest) started d n b h = ground (
    arith,
    key_fits key n (b + comma started),
    node_fits (d + 1) n (b + comma started + (chars_size key + 2 + 1)),
    value_fits v (d + 1) (n + 1) (b + comma started + (chars_size key + 2 + 1)),
    members_fit rest true d (n + 1 + inner v)
        (b + comma started + (chars_size key + 2 + 1) + json_size v),
  )
