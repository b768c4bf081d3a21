-- ===== src/Actions/Checks.antt =====
-- The guards that several components share: `require_int`, `check_ex_session`, `check_revision`
-- and `check_resources` of astrbot_ex/core/actions/models.py.
pub mod Laws
use astrbot_ex.Prelude.{
  ℕ, ◌+◌, ◌-◌, ◌^◌, String, Bool, Option, none, some, List, [], ◌∷◌, not, ltb, leb, ◌==◌, ◌=?◌,
  if◌then◌else◌, ◌&&◌,
}
use astrbot_ex.Prelude.Table.{Table, find, put}
use astrbot_ex.Actions.Error.{
  Error, contract, Result, ok, raise, raise_if, reject_if, ◌>>=◌, ◌>>◌, stale_ex_session,
  revision_conflict, range_violation, resource_conflict, duplicate_request_id_conflict,
}

-- 2**53 - 1
abbrev pub max_sequence : ℕ
max_sequence = 2 ^ 53 - 1

abbrev pub max_id_len : ℕ
max_id_len = 256

-- The texts are the parsed ones, stripped and not empty.
unfoldable pub check_ex_session : String → String → Result String
check_ex_session session current = do
  reject_if (not (session =? current)) stale_ex_session
  ok session

-- `expected` is compared if it is there; the result is the next revision either way.
expected_matches : Option ℕ → ℕ → Bool
expected_matches none current = Bool.true
expected_matches (some value) current = value == current

unfoldable pub check_revision : Option ℕ → ℕ → Result ℕ
unfolding expected_matches
check_revision expected current = do
  reject_if (ltb max_sequence current) range_violation
  reject_if (not (expected_matches expected current)) revision_conflict
  reject_if (leb max_sequence current) range_violation
  ok (current + 1)

-- held by another command than `command_id`
abbrev held_by_other : String → Option String → Bool
held_by_other command_id none = Bool.false
held_by_other command_id (some holder) = not (holder =? command_id)

unfoldable pub check_resources : Table String → List String → String → Result (Unit {0})
check_resources holders [] command_id = ok tt
check_resources holders (resource ∷ rest) command_id =
    let others = check_resources holders rest command_id in
    if held_by_other command_id (find resource holders)
    then raise (contract resource_conflict)
    else others
