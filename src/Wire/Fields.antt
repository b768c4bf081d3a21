-- ===== src/Wire/Fields.antt =====
-- The fields of a wire object and the checks of single values: `require_object`, `require_text`,
-- `require_int`, `require_bool`, `require_string_list`, `require_lease`, `require_id`,
-- `require_sequence`, `_optional_action_text`, `_unique_strings`, `_check_input_budget` and
-- `_reject_unknown_fields` of astrbot_ex/core/actions/models.py, and their counterparts of
-- astrbot_ex/core/decision/models.py.
pub mod Laws
use astrbot_ex.Prelude.{
  ℕ, String, Bool, true, false, not, Option, none, some, List, [], ◌∷◌, ltb, ◌==◌, ◌=?◌, ◌&&◌, ◌||◌,
  if◌then◌else◌, any,
}
use astrbot_ex.Prelude.Text.{text_length}
use astrbot_ex.Actions.Error.{
  ErrorCode, contract, Result, ok, raise, reject_if, ◌>>=◌, ◌>>◌, invalid_type, range_violation,
  negative_ttl, length_violation, text_too_long, schema_bounds_conflict, value_budget_exceeded,
  unknown_field, missing_field, unsupported_schema_version,
}
use astrbot_ex.Actions.Checks.{max_sequence, max_id_len}
use astrbot_ex.Actions.Command.{require_text, require_id, require_lease}
use astrbot_ex.Wire.Json.{
  Json, Items, Members, null, boolean, integer, real, string, array, object, other, no_items, item,
  no_members, member,
}
use astrbot_ex.Wire.Budget.{
  Verdict, accepted, rejected, out_of_fuel, measure_json_budget, find_non_finite,
}

-- the value of a key; the keys of an object differ
unfoldable pub get_field : String → Members → Option Json
get_field key no_members = none
get_field key (member none v rest) = get_field key rest
get_field key (member (some k) v rest) = if k =? key then some v else get_field key rest

-- `raw.get_field(key, default)`
unfoldable pub get_or : Json → String → Members → Json
unfolding get_field
get_or default key raw = elim (get_field key raw) [ some v ↦ v | none ↦ default ]

-- `raw.get_field(key)`
abbrev pub field : String → Members → Json
field key raw = get_or null key raw

unfoldable pub has : String → Members → Bool
unfolding get_field
has key raw = elim (get_field key raw) [ some v ↦ true | none ↦ false ]

unfoldable pub require_object : Json → Result Members
require_object (object ms) = ok ms
require_object v = raise (contract invalid_type)

unfoldable pub require_text_value : Option ℕ → Json → Result String
require_text_value limit (string s) = require_text s limit
require_text_value limit v = raise (contract invalid_type)

unfoldable pub require_id_value : Json → Result String
require_id_value (string s) = require_id s
require_id_value v = raise (contract invalid_type)

-- The bounds are not negative, so neither is what it returns.
unfoldable pub require_int : ℕ → ℕ → Json → Result ℕ
require_int minimum maximum (integer negative n) = do
  reject_if (negative && not (n == 0) || ltb n minimum) range_violation
  reject_if (ltb maximum n) range_violation
  ok n
require_int minimum maximum v = raise (contract invalid_type)

unfoldable pub require_sequence_value : ℕ → Json → Result ℕ
unfolding require_int
require_sequence_value minimum v = require_int minimum max_sequence v

unfoldable pub require_bool : Json → Result Bool
require_bool (boolean b) = ok b
require_bool v = raise (contract invalid_type)

unfoldable pub require_texts : Items → Result (List String)
unfolding require_text_value
require_texts no_items = ok []
require_texts (item v rest) = do
  text ← require_text_value none v
  texts ← require_texts rest
  ok (text ∷ texts)

unfoldable pub require_string_list : Bool → Json → Result (List String)
unfolding require_texts
require_string_list allow_empty (array no_items) =
    if allow_empty then ok [] else raise (contract length_violation)
require_string_list allow_empty (array xs) = require_texts xs
require_string_list allow_empty v = raise (contract invalid_type)

unfoldable pub require_lease_value : Json → Result ℕ
require_lease_value (integer negative n) = do
  reject_if (negative && not (n == 0)) negative_ttl
  require_lease n
require_lease_value v = raise (contract invalid_type)

-- `_optional_action_text`, and `_optional_text` of the decision side
unfoldable pub optional_text : Json → Result String
optional_text (string s) = do reject_if (ltb max_id_len (text_length s)) text_too_long; ok s
optional_text v = raise (contract invalid_type)

unfoldable pub is_listed : List String → String → Bool
is_listed xs s = any (λ x. x =? s) xs

-- `len(items) != len(set(items))`
unfoldable pub has_duplicate : List String → Bool
unfolding is_listed
has_duplicate [] = false
has_duplicate (x ∷ xs) = is_listed xs x || has_duplicate xs

unfoldable pub require_ids : List String → Result (Unit {0})
require_ids [] = ok tt
require_ids (x ∷ xs) = do id ← require_id x; require_ids xs

unfoldable pub unique_strings : Bool → Json → Result (List String)
unfolding require_string_list require_ids has_duplicate
unique_strings allow_empty v = do
  items ← require_string_list allow_empty v
  require_ids items
  reject_if (has_duplicate items) schema_bounds_conflict
  ok items

-- The walk never runs out of fuel.
abbrev pub of_verdict : Verdict → Result (Unit {0})
of_verdict accepted = ok tt
of_verdict (rejected code) = raise (contract code)
of_verdict out_of_fuel = raise (contract value_budget_exceeded)

unfoldable pub check_input_budget : Json → Result (Unit {0})
check_input_budget v = of_verdict (measure_json_budget v)

unfoldable pub check_finite : Json → Result (Unit {0})
check_finite v = of_verdict (find_non_finite v)

unfoldable pub reject_unknown_fields : Members → List String → Result (Unit {0})
unfolding is_listed
reject_unknown_fields no_members allowed = ok tt
reject_unknown_fields (member none v rest) allowed = raise (contract unknown_field)
reject_unknown_fields (member (some k) v rest) allowed = do
  reject_if (not (is_listed allowed k)) unknown_field
  reject_unknown_fields rest allowed

-- `type(version) is int and version == SCHEMA_VERSION`
abbrev pub is_version : Json → Bool
is_version (integer negative n) = not negative && n == 1
is_version v = false

-- `_version`, which also `ActionCommand.parse` has
unfoldable pub check_version : Members → Result (Unit {0})
unfolding has get_or
check_version raw = do
  reject_if (not (has "schema_version" raw)) missing_field
  reject_if (not (is_version (field "schema_version" raw))) unsupported_schema_version

-- `_required`
unfoldable pub require_fields : List String → Members → Result (Unit {0})
unfolding has
require_fields [] raw = ok tt
require_fields (name ∷ names) raw = do
  reject_if (not (has name raw)) missing_field
  require_fields names raw

-- a list of texts as an array
unfoldable pub strings : List String → Items
strings [] = no_items
strings (x ∷ xs) = item (string x) (strings xs)
