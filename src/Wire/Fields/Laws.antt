-- ===== src/Wire/Fields/Laws.antt =====
-- What the checks of single values return, and that they accept it again.
use astrbot_ex.Prelude.{
  ℕ, String, ◌≡◌, ◌≢◌, ◌≤◌, refl, none, some, true, false, Bool, arith, List, [], ◌∷◌,
}
use astrbot_ex.Prelude.Text.{strip, text_length}
use astrbot_ex.Prelude.Text.Strip.{strip_idem}
use astrbot_ex.Actions.Error.{ok}
use astrbot_ex.Actions.Checks.{max_sequence, max_id_len}
use astrbot_ex.Actions.Command.{require_text, require_id, require_lease, max_lease_ms}
use astrbot_ex.Wire.Json.{Json, integer, string, array, Items, no_items, item}
use astrbot_ex.Wire.Returns.{Returns, returned, raised, then_returns, of_result}
use astrbot_ex.Wire.Fields.{
  strings, require_texts, require_string_list, require_text_value, require_id_value,
  require_sequence_value, require_lease_value, optional_text,
}

-- a text without spaces round it that is not empty
abbrev pub IsText : String → Type 0
IsText s = (strip s ≡ s) × (s ≢ "")

abbrev pub IsId : String → Type 0
IsId s = (strip s ≡ s) × (s ≢ "") × (text_length s ≤ max_id_len)

abbrev pub IsLease : ℕ → Type 0
IsLease n = (1 ≤ n) × (n ≤ max_lease_ms)

require_text-IsText : (s t : String) → require_text s none ≡ ok t → IsText t
unfolding require_text
require_text-IsText s t h = ground (arith, strip_idem s)

require_id-IsId : (s t : String) → require_id s ≡ ok t → IsId t
unfolding require_id
require_id-IsId s t h = ground (arith, strip_idem s)

pub require_id_value-IsId : (v : Json) (t : String) → require_id_value v ≡ ok t → IsId t
unfolding require_id_value
require_id_value-IsId (string s) t h = require_id-IsId s t h
require_id_value-IsId v t h = ground arith

pub require_id_value_again : (s : String) → IsId s → require_id_value (string s) ≡ ok s
unfolding require_id_value require_id
require_id_value_again s h = ground (arith, h)

pub require_sequence_value_again :
    (minimum n : ℕ)
    → minimum ≤ n
    → n ≤ max_sequence
    → require_sequence_value minimum (integer false n) ≡ ok n
unfolding require_sequence_value
require_sequence_value_again minimum n h k = ground arith

pub require_sequence_value_bounds :
    (minimum : ℕ) (v : Json) (n : ℕ)
    → require_sequence_value minimum v ≡ ok n
    → (minimum ≤ n) × (n ≤ max_sequence)
unfolding require_sequence_value
require_sequence_value_bounds minimum (integer negative m) n h = ground arith
require_sequence_value_bounds minimum v n h = ground arith

pub require_lease_value_again : (n : ℕ) → IsLease n → require_lease_value (integer false n) ≡ ok n
unfolding require_lease_value require_lease
require_lease_value_again n h = ground arith

pub require_lease_value-IsLease : (v : Json) (n : ℕ) → require_lease_value v ≡ ok n → IsLease n
unfolding require_lease_value require_lease
require_lease_value-IsLease (integer negative m) n h = ground arith
require_lease_value-IsLease v n h = ground arith

pub optional_text_again :
    (s : String) → text_length s ≤ max_id_len → optional_text (string s) ≡ ok s
unfolding optional_text
optional_text_again s h = ground arith

pub optional_text_bounds :
    (v : Json) (s : String) → optional_text v ≡ ok s → text_length s ≤ max_id_len
unfolding optional_text
optional_text_bounds (string t) s h = ground arith
optional_text_bounds v s h = ground arith

pub checked-IsId : (v : Json) → Returns IsId (require_id_value v)
checked-IsId v = of_result (require_id_value v) (require_id_value-IsId v)

pub checked_sequence : (v : Json) → Returns (λ n. n ≤ max_sequence) (require_sequence_value 0 v)
checked_sequence v =
    of_result (require_sequence_value 0 v) (λ n e. (require_sequence_value_bounds 0 v n e).1)

pub checked-IsLease : (v : Json) → Returns IsLease (require_lease_value v)
checked-IsLease v = of_result (require_lease_value v) (require_lease_value-IsLease v)

pub checked_text : (v : Json) → Returns (λ s. text_length s ≤ max_id_len) (optional_text v)
checked_text v = of_result (optional_text v) (optional_text_bounds v)

-- texts without spaces round them that are not empty
abbrev pub AreTexts : List String → Type 0
AreTexts [] = Unit
AreTexts (s ∷ ss) = IsText s × AreTexts ss

require_text_value-IsText : (v : Json) (t : String) → require_text_value none v ≡ ok t → IsText t
unfolding require_text_value
require_text_value-IsText (string s) t h = require_text-IsText s t h
require_text_value-IsText v t h = ground arith

IsText-returns : (v : Json) → Returns IsText (require_text_value none v)
IsText-returns v = of_result (require_text_value none v) (require_text_value-IsText v)

text_again : (s : String) → IsText s → require_text_value none (string s) ≡ ok s
unfolding require_text_value require_text
text_again s h = ground arith

texts_again : (xs : List String) → AreTexts xs → require_texts (strings xs) ≡ ok xs
unfolding require_texts strings
texts_again [] h = refl
texts_again (x ∷ xs) h = rw (text_again x h.0, texts_again xs h.1) refl

texts_return : (xs : Items) → Returns AreTexts (require_texts xs)
unfolding require_texts
texts_return no_items = returned [] tt
texts_return (item v rest) =
    then_returns (IsText-returns v)
      λ t p. then_returns (texts_return rest) λ ts ps. returned (t ∷ ts) (p, ps)

pub checked_string_list :
    (allow_empty : Bool) (v : Json) → Returns AreTexts (require_string_list allow_empty v)
unfolding require_string_list
checked_string_list true (array no_items) = returned [] tt
checked_string_list false (array no_items) = raised _
checked_string_list allow_empty (array (item v rest)) = texts_return (item v rest)
checked_string_list allow_empty v = raised _

-- the texts of a list as JSON
pub require_string_list_again :
    (xs : List String) → AreTexts xs → require_string_list true (array (strings xs)) ≡ ok xs
unfolding require_string_list strings
require_string_list_again [] h = refl
require_string_list_again (x ∷ xs) h = texts_again (x ∷ xs) h

require_text_value_limited :
    (limit : ℕ) (v : Json) (t : String)
    → require_text_value (some limit) v ≡ ok t
    → IsText t × (text_length t ≤ limit)
unfolding require_text_value require_text
require_text_value_limited limit (string s) t h = ground (arith, strip_idem s)
require_text_value_limited limit v t h = ground arith

pub checked_limited :
    (limit : ℕ) (v : Json)
    → Returns (λ s. IsText s × (text_length s ≤ limit)) (require_text_value (some limit) v)
checked_limited limit v =
    of_result (require_text_value (some limit) v) (require_text_value_limited limit v)

pub require_text_value_again :
    (limit : ℕ) (s : String)
    → IsText s
    → text_length s ≤ limit
    → require_text_value (some limit) (string s) ≡ ok s
unfolding require_text_value require_text
require_text_value_again limit s h k = ground arith
