-- ===== src/Wire/Budget/Weight.antt =====
-- The walk of `measure_json_budget` by recursion on the value.
pub mod Steps
pub mod Runs
use astrbot_ex.Prelude.{ℕ, ◌+◌, ◌-◌, String, Bool, true, false, Option, none, some, if◌then◌else◌}
use astrbot_ex.Actions.Error.{
  ErrorCode, value_budget_exceeded, invalid_type, schema_depth_exceeded, non_finite_number,
}
use astrbot_ex.Wire.Json.{
  Json, Items, Members, real, array, object, no_items, item, no_members, member, string_json_size,
  ScalarSize, size, too_big, not_json, scalar_json_size,
}
use astrbot_ex.Wire.Budget.{
  max_validation_bytes, comma, is_over, is_crowded, is_deep, Verdict, accepted, rejected,
}

-- the nodes and the bytes so far, or the code
pub data Weighed : Type 0 where
  weight : ℕ → ℕ → Weighed
  over : ErrorCode → Weighed

abbrev pub then_weigh : Weighed → (ℕ → ℕ → Weighed) → Weighed
then_weigh (weight nodes bytes) k = k nodes bytes
then_weigh (over code) k = over code

abbrev pub add_bytes : ℕ → ℕ → ℕ → Weighed
add_bytes n nodes bytes =
    if is_over (bytes + n) then over value_budget_exceeded else weight nodes (bytes + n)

abbrev pub weigh_scalar : ScalarSize → ℕ → ℕ → Weighed
weigh_scalar too_big nodes bytes = over value_budget_exceeded
weigh_scalar not_json nodes bytes = over invalid_type
weigh_scalar (size n) nodes bytes = add_bytes n nodes bytes

-- a key of a size, and the colon
abbrev pub weigh_text : Option ℕ → ℕ → ℕ → Weighed
weigh_text none nodes bytes = over value_budget_exceeded
weigh_text (some n) nodes bytes =
    if is_over (bytes + n + 1) then over value_budget_exceeded else weight nodes (bytes + n + 1)

abbrev pub weigh_key : Option String → ℕ → ℕ → Weighed
weigh_key none nodes bytes = over invalid_type
weigh_key (some key) nodes bytes =
    weigh_text (string_json_size (max_validation_bytes - bytes) key) nodes bytes

-- a node at a depth
abbrev pub count_node : ℕ → ℕ → ℕ → Weighed
count_node depth nodes bytes =
    if is_crowded (nodes + 1)
    then over value_budget_exceeded
    else if is_deep depth
    then over schema_depth_exceeded
    else weight (nodes + 1) bytes

unfoldable mutual
  -- a value that was counted
  pub weigh_value : Json → ℕ → ℕ → ℕ → Weighed
  weigh_value (real none) depth nodes bytes = over non_finite_number
  weigh_value (object ms) depth nodes bytes =
      then_weigh (add_bytes 1 nodes bytes)
        (λ n b. then_weigh (weigh_members false ms (depth + 1) n b) (λ n' b'. add_bytes 1 n' b'))
  weigh_value (array xs) depth nodes bytes =
      then_weigh (add_bytes 1 nodes bytes)
        (λ n b. then_weigh (weigh_items false xs (depth + 1) n b) (λ n' b'. add_bytes 1 n' b'))
  weigh_value v depth nodes bytes =
      weigh_scalar (scalar_json_size (max_validation_bytes - bytes) v) nodes bytes

  pub weigh_items : Bool → Items → ℕ → ℕ → ℕ → Weighed
  weigh_items started no_items depth nodes bytes = weight nodes bytes
  weigh_items started (item v rest) depth nodes bytes =
      then_weigh
        (then_weigh (count_node depth nodes (bytes + comma started))
          (λ n b. weigh_value v depth n b))
        (λ n b. weigh_items true rest depth n b)

  pub weigh_members : Bool → Members → ℕ → ℕ → ℕ → Weighed
  weigh_members started no_members depth nodes bytes = weight nodes bytes
  weigh_members started (member key v rest) depth nodes bytes =
      then_weigh (weigh_key key nodes (bytes + comma started)) (λ n b.
        then_weigh (then_weigh (count_node depth n b) (λ n' b'. weigh_value v depth n' b'))
          (λ n' b'. weigh_members true rest depth n' b'))

abbrev pub weigh : Json → ℕ → ℕ → ℕ → Weighed
weigh v depth nodes bytes =
    then_weigh (count_node depth nodes bytes) (λ n b. weigh_value v depth n b)

-- the answer of the loop to a weight
abbrev pub verdict_of : Weighed → Verdict
verdict_of (weight nodes bytes) = accepted
verdict_of (over code) = rejected code
