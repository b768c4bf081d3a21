-- ===== src/Actions/Error.antt =====
-- The errors that the action side raises (`ContractError` with its `ErrorCode`, `ValueError`,
-- `RuntimeError`, `KeyError`, `sqlite3.IntegrityError`) and the result of code that may raise:
-- astrbot_ex/core/actions/models.py.
use astrbot_ex.Prelude.{String, ◌≡◌, Bool, true, false}

-- The codes of `ErrorCode` that the modelled code raises.
pub data ErrorCode : Type 0 where
  illegal_transition duplicate_request_id_conflict owner_mismatch resource_conflict : ErrorCode
  stale_ex_session revision_conflict range_violation invalid_type empty_string : ErrorCode
  text_too_long negative_ttl non_positive_lease value_budget_exceeded : ErrorCode
  goal_capacity request_capacity unknown_action cancel_unsupported missing_params : ErrorCode
  authorization_revoked unsupported_operation invalid_params : ErrorCode
  schema_depth_exceeded non_finite_number missing_field unknown_field : ErrorCode
  unsupported_schema_version enum_violation length_violation schema_bounds_conflict : ErrorCode

pub data Error : Type 0 where
  contract : ErrorCode → Error
  value_error : Error
  runtime_error : String → Error
  key_error : Error
  -- a violated PRIMARY KEY; the ledger's writer thread dies of it
  integrity : Error

pub data Result {ℓ} (A : Type ℓ) : Type ℓ where
  ok : A → Result A
  raise : Error → Result A

infixl 5 ◌>>=◌ ◌>>◌
abbrev pub ◌>>=◌ {ℓ κ} : {A : Type ℓ} {B : Type κ} → Result A → (A → Result B) → Result B
ok a >>= f = f a
raise e >>= f = raise e

abbrev pub ◌>>◌ {ℓ} : {B : Type ℓ} → Result (Unit {0}) → Result B → Result B
m >> k = m >>= λ _. k

-- `if b: raise e`
abbrev pub raise_if : Bool → Error → Result (Unit {0})
raise_if true e = raise e
raise_if false e = ok tt

-- `reject(code, ...)` under a test
abbrev pub reject_if : Bool → ErrorCode → Result (Unit {0})
reject_if b c = raise_if b (contract c)

pub ok-injective {ℓ} : {A : Type ℓ} {a b : A} → ok a ≡ ok b → a ≡ b
ok-injective h = cc
