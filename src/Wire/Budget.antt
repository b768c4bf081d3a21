-- ===== src/Wire/Budget.antt =====
-- `measure_json_budget` of astrbot_ex/core/actions/models.py: the walk over a value with a stack of its
-- own. `find_non_finite` of the same file is the same walk, and answers with the same codes.
pub mod Weight
pub mod Fits
use astrbot_ex.Prelude.{
  ℕ, zero, suc, ◌+◌, ◌-◌, String, Bool, true, false, Option, none, some, List, [], ◌∷◌, ltb,
  if◌then◌else◌,
}
use astrbot_ex.Actions.Error.{
  ErrorCode, value_budget_exceeded, invalid_type, schema_depth_exceeded, non_finite_number,
}
use astrbot_ex.Wire.Json.{
  Json, Items, Members, null, boolean, integer, real, string, array, object, other, no_items, item,
  no_members, member, string_json_size, ScalarSize, size, too_big, not_json, scalar_json_size,
}

abbrev pub max_validation_depth : ℕ
max_validation_depth = 32

abbrev pub max_validation_nodes : ℕ
max_validation_nodes = 20000

abbrev pub max_validation_bytes : ℕ
max_validation_bytes = 1048576

-- An entry of the stack. `items` and `members` have what is left of their iterator, and whether an
-- element was taken before; the number is the depth.
pub data Frame : Type 0 where
  visit : Json → ℕ → Frame
  leave : Frame
  items : Bool → Items → ℕ → Frame
  members : Bool → Members → ℕ → Frame

-- the stack, the nodes and the bytes after a round of the loop, or the code that it returns
pub data Outcome : Type 0 where
  going : List Frame → ℕ → ℕ → Outcome
  refused : ErrorCode → Outcome

abbrev pub comma : Bool → ℕ
comma true = 1
comma false = 0

unfoldable pub is_over : ℕ → Bool
is_over bytes = ltb max_validation_bytes bytes

unfoldable pub is_crowded : ℕ → Bool
is_crowded nodes = ltb max_validation_nodes nodes

unfoldable pub is_deep : ℕ → Bool
is_deep depth = ltb max_validation_depth depth

abbrev pub unless_over : ℕ → Outcome → Outcome
unless_over bytes next = if is_over bytes then refused value_budget_exceeded else next

-- the colon is counted with the key
abbrev pub open_member : Option ℕ → Json → Members → ℕ → List Frame → ℕ → ℕ → Outcome
open_member none v rest depth stack nodes bytes = refused value_budget_exceeded
open_member (some n) v rest depth stack nodes bytes =
    unless_over (bytes + n + 1)
      (going (visit v depth ∷ members true rest depth ∷ stack) nodes (bytes + n + 1))

abbrev pub take_member : Bool → Members → ℕ → List Frame → ℕ → ℕ → Outcome
take_member started no_members depth stack nodes bytes = going stack nodes bytes
take_member started (member none v rest) depth stack nodes bytes = refused invalid_type
take_member started (member (some key) v rest) depth stack nodes bytes =
    open_member (string_json_size (max_validation_bytes - (bytes + comma started)) key) v rest depth
      stack nodes (bytes + comma started)

abbrev pub take_item : Bool → Items → ℕ → List Frame → ℕ → ℕ → Outcome
take_item started no_items depth stack nodes bytes = going stack nodes bytes
take_item started (item v rest) depth stack nodes bytes =
    going (visit v depth ∷ items true rest depth ∷ stack) nodes (bytes + comma started)

abbrev pub add_scalar : ScalarSize → List Frame → ℕ → ℕ → Outcome
add_scalar too_big stack nodes bytes = refused value_budget_exceeded
add_scalar not_json stack nodes bytes = refused invalid_type
add_scalar (size n) stack nodes bytes = unless_over (bytes + n) (going stack nodes (bytes + n))

-- the end of a visit, by the kind of the value
abbrev pub enter : Json → ℕ → List Frame → ℕ → ℕ → Outcome
enter (real none) depth stack nodes bytes = refused non_finite_number
enter (object ms) depth stack nodes bytes =
    unless_over (bytes + 1) (going (members false ms (depth + 1) ∷ leave ∷ stack) nodes (bytes + 1))
enter (array xs) depth stack nodes bytes =
    unless_over (bytes + 1) (going (items false xs (depth + 1) ∷ leave ∷ stack) nodes (bytes + 1))
enter v depth stack nodes bytes =
    add_scalar (scalar_json_size (max_validation_bytes - bytes) v) stack nodes bytes

-- a round of the loop
unfoldable pub step : Frame → List Frame → ℕ → ℕ → Outcome
step leave stack nodes bytes = unless_over (bytes + 1) (going stack nodes (bytes + 1))
step (members started ms depth) stack nodes bytes = take_member started ms depth stack nodes bytes
step (items started xs depth) stack nodes bytes = take_item started xs depth stack nodes bytes
step (visit v depth) stack nodes bytes =
    if is_crowded (nodes + 1)
    then refused value_budget_exceeded
    else if is_deep depth
    then refused schema_depth_exceeded
    else enter v depth stack (nodes + 1) bytes

pub data Verdict : Type 0 where
  accepted : Verdict
  rejected : ErrorCode → Verdict
  out_of_fuel : Verdict

-- `while stack`
unfoldable pub run : ℕ → Outcome → Verdict
unfolding step
run fuel (refused code) = rejected code
run fuel (going [] nodes bytes) = accepted
run zero (going (f ∷ stack) nodes bytes) = out_of_fuel
run (suc fuel) (going (f ∷ stack) nodes bytes) = run fuel (step f stack nodes bytes)

-- the rounds that a value takes if nothing is refused
unfoldable mutual
  pub rounds : Json → ℕ
  rounds (array xs) = rounds_items xs + 2
  rounds (object ms) = rounds_members ms + 2
  rounds null = 1
  rounds (boolean b) = 1
  rounds (integer negative n) = 1
  rounds (real r) = 1
  rounds (string s) = 1
  rounds other = 1

  pub rounds_items : Items → ℕ
  rounds_items no_items = 1
  rounds_items (item v rest) = rounds v + rounds_items rest + 1

  pub rounds_members : Members → ℕ
  rounds_members no_members = 1
  rounds_members (member key v rest) = rounds v + rounds_members rest + 1

-- `measure_json_budget`; `None` is `accepted`
unfoldable pub measure_json_budget : Json → Verdict
unfolding run rounds
measure_json_budget v = run (rounds v) (going (visit v 0 ∷ []) 0 0)

unfoldable pub find_non_finite : Json → Verdict
unfolding measure_json_budget
find_non_finite v = measure_json_budget v
