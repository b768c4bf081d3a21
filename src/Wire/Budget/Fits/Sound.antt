-- ===== src/Wire/Budget/Fits/Sound.antt =====
-- A value that the walk accepts fits.
use astrbot_ex.Prelude.{ℕ, ◌+◌, ◌-◌, ◌≤◌, String, ◌≡◌, refl, Bool, true, false, none, some, arith}
use astrbot_ex.Wire.Json.{
  Json, Items, Members, null, boolean, integer, real, string, array, object, other, no_items, item,
  no_members, member, ScalarSize, size, too_big, not_json, scalar_json_size,
}
use astrbot_ex.Wire.Budget.{
  comma, max_validation_depth, max_validation_nodes, max_validation_bytes, is_over, is_crowded,
  is_deep,
}
use astrbot_ex.Wire.Budget.Weight.{
  Weighed, weight, over, then_weigh, weigh_scalar, weigh_key, weigh_value, weigh_items,
  weigh_members, weigh, add_bytes, count_node,
}
use astrbot_ex.Wire.Budget.Fits.{
  Within, chars_size, scalar_size, has_text, json_size, items_size, members_size, inner,
  nodes_items, nodes_members, height, height_items, height_members, is_json, are_json, have_json,
  string_json_size_lem, scalar_json_size_lem,
}

pub then_weigh_cases :
    (w : Weighed) (f : ℕ → ℕ → Weighed) (n' b' : ℕ)
    → then_weigh w (λ n b. f n b) ≡ weight n' b'
    → (n : ℕ) × (b : ℕ) × (w ≡ weight n b) × (f n b ≡ weight n' b')
then_weigh_cases (weight n b) f n' b' h = (n, b, refl, h)
then_weigh_cases (over code) f n' b' h = ground arith

-- what a weight says of the part of a value that it counts
abbrev pub Counts : Bool → ℕ → ℕ → ℕ → ℕ → ℕ → Type 0
Counts valid deep count bytes n' b' = Within valid deep count bytes × (n' ≡ count) × (b' ≡ bytes)

added :
    (k n b n' b' : ℕ)
    → add_bytes k n b ≡ weight n' b'
    → (n' ≡ n) × (b' ≡ b + k) × (b + k ≤ max_validation_bytes)
unfolding is_over
added k n b n' b' h = ground arith

pub node_counted :
    (d n b n' b' : ℕ)
    → count_node d n b ≡ weight n' b'
    → (n' ≡ n + 1) × (b' ≡ b) × (n + 1 ≤ max_validation_nodes) × (d ≤ max_validation_depth)
unfolding is_crowded is_deep
node_counted d n b n' b' h = ground arith

scalar_weighed :
    (z : ScalarSize) (n b n' b' : ℕ)
    → weigh_scalar z n b ≡ weight n' b'
    → (m : ℕ) × (z ≡ size m) × (n' ≡ n) × (b' ≡ b + m) × (b + m ≤ max_validation_bytes)
unfolding is_over
scalar_weighed (size m) n b n' b' h = (m, refl, ground arith, ground arith, ground arith)
scalar_weighed too_big n b n' b' h = ground arith
scalar_weighed not_json n b n' b' h = ground arith

scalar-Counts :
    (v : Json) (d n b n' b' : ℕ)
    → d ≤ max_validation_depth
    → n ≤ max_validation_nodes
    → weigh_scalar (scalar_json_size (max_validation_bytes - b) v) n b ≡ weight n' b'
    → Counts (has_text v) d n (b + scalar_size v) n' b'
scalar-Counts v d n b n' b' hd hn h =
    let (m, e, p, q, r) =
      scalar_weighed (scalar_json_size (max_validation_bytes - b) v) n b n' b' h in
    let s = scalar_json_size_lem (max_validation_bytes - b) m v e in
    ((s.0, omega arith, omega arith, omega (arith, s.1)), omega arith, omega (arith, s.1))

key_weighed :
    (key : String) (n b n' b' : ℕ)
    → weigh_key (some key) n b ≡ weight n' b'
    → (n' ≡ n) × (b' ≡ b + (chars_size key + 2 + 1)) × (b' ≤ max_validation_bytes)
unfolding is_over
key_weighed key n b n' b' h = ground (arith, string_json_size_lem (max_validation_bytes - b) key)

mutual
  unfolding json_size inner height is_json weigh_value has_text

  pub value-Counts :
      (v : Json) (d n b n' b' : ℕ)
      → d ≤ max_validation_depth
      → n ≤ max_validation_nodes
      → weigh_value v d n b ≡ weight n' b'
      → Counts (is_json v) (d + height v) (n + inner v) (b + json_size v) n' b'
  value-Counts null d n b n' b' hd hn h = ground (arith, scalar-Counts null d n b n' b' hd hn h)
  value-Counts (boolean x) d n b n' b' hd hn h =
      ground (arith, scalar-Counts (boolean x) d n b n' b' hd hn h)
  value-Counts (integer x y) d n b n' b' hd hn h =
      ground (arith, scalar-Counts (integer x y) d n b n' b' hd hn h)
  value-Counts (real (some r)) d n b n' b' hd hn h =
      ground (arith, scalar-Counts (real (some r)) d n b n' b' hd hn h)
  value-Counts (string s) d n b n' b' hd hn h =
      ground (arith, scalar-Counts (string s) d n b n' b' hd hn h)
  value-Counts other d n b n' b' hd hn h = ground (arith, scalar-Counts other d n b n' b' hd hn h)
  value-Counts (real none) d n b n' b' hd hn h = ground arith
  value-Counts (array xs) d n b n' b' hd hn h =
      let (n1, b1, p, q) =
        then_weigh_cases (add_bytes 1 n b)
          (λ n0 b0. then_weigh (weigh_items false xs (d + 1) n0 b0) (λ n3 b3. add_bytes 1 n3 b3)) n'
          b' h in
      let (n2, b2, p', q') =
        then_weigh_cases (weigh_items false xs (d + 1) n1 b1) (λ n3 b3. add_bytes 1 n3 b3) n' b'
          q in
      let opened = added 1 n b n1 b1 p in
      ground (arith, opened, added 1 n2 b2 n' b' q', items_count xs false d n1 b1 n2 b2 hd)
  value-Counts (object xs) d n b n' b' hd hn h =
      let (n1, b1, p, q) =
        then_weigh_cases (add_bytes 1 n b)
          (λ n0 b0. then_weigh (weigh_members false xs (d + 1) n0 b0) (λ n3 b3. add_bytes 1 n3 b3))
          n' b' h in
      let (n2, b2, p', q') =
        then_weigh_cases (weigh_members false xs (d + 1) n1 b1) (λ n3 b3. add_bytes 1 n3 b3) n' b'
          q in
      let opened = added 1 n b n1 b1 p in
      ground (arith, opened, added 1 n2 b2 n' b' q', members_count xs false d n1 b1 n2 b2 hd)

  items_count :
      (xs : Items) (started : Bool) (d n b n' b' : ℕ)
      → d ≤ max_validation_depth
      → n ≤ max_validation_nodes
      → b ≤ max_validation_bytes
      → weigh_items started xs (d + 1) n b ≡ weight n' b'
      → Counts
          (are_json xs)
          (d + height_items xs)
          (n + nodes_items xs)
          (b + items_size started xs)
          n'
          b'
  items_count no_items started d n b n' b' hd hn hb h = ground arith
  items_count (item v rest) started d n b n' b' hd hn hb h =
      let (n2, b2, p', q') =
        then_weigh_cases (weigh v (d + 1) n (b + comma started))
          (λ n0 b0. weigh_items true rest (d + 1) n0 b0) n' b' h in
      let (n1, b1, p, q) =
        then_weigh_cases (count_node (d + 1) n (b + comma started))
          (λ n0 b0. weigh_value v (d + 1) n0 b0) n2 b2 p' in
      let c = node_counted (d + 1) n (b + comma started) n1 b1 p in
      ground (arith, c, value-Counts v (d + 1) n1 b1 n2 b2, items_count rest true d n2 b2 n' b' hd)

  members_count :
      (xs : Members) (started : Bool) (d n b n' b' : ℕ)
      → d ≤ max_validation_depth
      → n ≤ max_validation_nodes
      → b ≤ max_validation_bytes
      → weigh_members started xs (d + 1) n b ≡ weight n' b'
      → Counts
          (have_json xs)
          (d + height_members xs)
          (n + nodes_members xs)
          (b + members_size started xs)
          n'
          b'
  members_count no_members started d n b n' b' hd hn hb h = ground arith
  members_count (member none v rest) started d n b n' b' hd hn hb h = ground arith
  members_count (member (some key) v rest) started d n b n' b' hd hn hb h =
      let (n1, b1, p, q) =
        then_weigh_cases (weigh_key (some key) n (b + comma started))
          (λ n0 b0.
            then_weigh (weigh v (d + 1) n0 b0) (λ n0' b0'. weigh_members true rest (d + 1) n0' b0'))
          n' b' h in
      let (n3, b3, p', q') =
        then_weigh_cases (weigh v (d + 1) n1 b1) (λ n0 b0. weigh_members true rest (d + 1) n0 b0) n'
          b' q in
      let (n2, b2, p'', q'') =
        then_weigh_cases (count_node (d + 1) n1 b1) (λ n0 b0. weigh_value v (d + 1) n0 b0) n3 b3
          p' in
      let k = key_weighed key n (b + comma started) n1 b1 p in
      let c = node_counted (d + 1) n1 b1 n2 b2 p'' in
      ground
        (arith, k, c, value-Counts v (d + 1) n2 b2 n3 b3, members_count rest true d n3 b3 n' b' hd)
