-- ===== src/Wire/Registry.antt =====
-- `IdempotencyRegistry` of astrbot_ex/core/actions/models.py. `json.dumps` with sorted keys is a
-- parameter; the table of texts by request is the state.
pub mod Laws
use astrbot_ex.Prelude.{String, Option, none, some, ◌=?◌, if◌then◌else◌}
use astrbot_ex.Prelude.Table.{Table, find, put}
use astrbot_ex.Actions.Error.{
  contract, Result, ok, raise, ◌>>=◌, ◌>>◌, duplicate_request_id_conflict,
}
use astrbot_ex.Actions.Command.{require_id}
use astrbot_ex.Wire.Json.{Json, Members}
use astrbot_ex.Wire.Fields.{check_input_budget, require_object}

pub data Resolution : Type 0 where
  new replay : Resolution

-- the checks before the table is read
unfoldable pub check_request : String → Json → Result (Unit {0})
check_request request_id payload = do
  id ← require_id request_id
  check_input_budget payload
  raw ← require_object payload
  ok tt

-- the rest, for the canonical text of the payload
unfoldable pub look_up : Table String → String → String → Result Resolution × Table String
look_up seen request_id text = elim (find request_id seen) [
  | none ↦ (ok new, put request_id text seen)
  | some previous ↦
      (if previous =? text then ok replay else raise (contract duplicate_request_id_conflict), seen)
]

abbrev pub after_check :
    Result (Unit {0})
    → Table String
    → Result Resolution × Table String
    → Result Resolution × Table String
after_check (raise e) seen rest = (raise e, seen)
after_check (ok done) seen rest = rest

unfoldable pub resolve :
    (Json → String) → Table String → String → Json → Result Resolution × Table String
unfolding check_request look_up
resolve canonical seen request_id payload =
    after_check (check_request request_id payload) seen
      (look_up seen request_id (canonical payload))
