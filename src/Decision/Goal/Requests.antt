-- ===== src/Decision/Goal/Requests.antt =====
-- The requests of a client of `GoalManager`: `_replay`, `_remember`, `_match`, `submit`, `cancel`,
-- `renew` of astrbot_ex/core/decision/goal_manager.py. The digest (SHA-256 of the canonical JSON)
-- and the validation of parameters against a schema are parameters.
use astrbot_ex.Prelude.{
  ℕ, ◌+◌, ◌-◌, ◌*◌, String, Bool, false, not, Option, none, some, List, [], ◌∷◌, ◌++◌, ◌||◌, ltb,
  leb, ◌==◌, ◌=?◌, if◌then◌else◌, length, drop, any,
}
use astrbot_ex.Prelude.Table.{find, put}
use astrbot_ex.Actions.Error.{
  ErrorCode, contract, Result, ok, raise, reject_if, ◌>>=◌, ◌>>◌, revision_conflict,
  duplicate_request_id_conflict, request_capacity, goal_capacity, unknown_action,
  cancel_unsupported, missing_params, authorization_revoked,
}
use astrbot_ex.Actions.Checks.{check_ex_session, check_revision}
use astrbot_ex.Decision.Goal.Defs.{
  Goal, GoalCancel, GoalRenew, Request, submits, cancels, renews, GoalRecord, active, blocked,
  pending_cancel, eq_phase, Ending, Response, submitted, canceled, renewed, HistoryEntry, Manager,
}
use astrbot_ex.Decision.Goal.Ops.{or_else, close_gate, stop}

-- An action of the catalogue's snapshot, with the availability of its entry.
pub record CatalogAction : Type 0 where
  pub action_id : String
  pub available : Bool
  pub operations : List String
  pub schema : String

pub record Outside : Type 0 where
  -- `sha256` of the canonical JSON of a request
  pub digest : Request → String
  -- the first error of `validate_params` for a schema and parameters
  pub params_error : String → String → Option ErrorCode

-- `deque(maxlen=64)`
abbrev pub push_history : HistoryEntry → List HistoryEntry → List HistoryEntry
push_history e es = let all = es ++ e ∷ [] in drop (length all - 64) all

-- `_replay`: the remembered response, if the request id is known
unfoldable pub replay : String → String → Manager → Result (Option Response)
replay request_id digest m = elim (find request_id m.requests) [
  | some (old, response) ↦
      if old =? digest then ok (some response) else raise (contract duplicate_request_id_conflict)
  | none ↦
      if leb m.request_limit (length m.requests) then raise (contract request_capacity) else ok none
]

-- `_remember`
unfoldable pub remember : String → String → Response → Manager → Manager
remember request_id digest response m = record m {
  requests = put request_id (digest, response) m.requests;
}

-- `_match`
abbrev is_goal : Option GoalRecord → String → ℕ → Result GoalRecord
is_goal none goal_id revision = raise (contract revision_conflict)
is_goal (some g) goal_id revision =
    if not (g.revision == revision) || not (g.payload.goal_id =? goal_id)
    then raise (contract revision_conflict)
    else ok g

unfoldable pub match_goal : String → ℕ → Manager → Result GoalRecord
match_goal goal_id revision m = is_goal (or_else m.pending_replace m.active) goal_id revision

-- the last action of that id, as in the dictionary that `submit` builds
abbrev pub action_of : String → List CatalogAction → Option CatalogAction
action_of action_id [] = none
action_of action_id (a ∷ rest) =
    let later = action_of action_id rest in
    elim later [ some b ↦ some b | none ↦ if a.action_id =? action_id then some a else none ]

abbrev within : Option ErrorCode → Result (Unit {0})
within none = ok tt
within (some code) = raise (contract code)

unfoldable pub check_action : Outside → List CatalogAction → Goal → String → Result (Unit {0})
check_action outside catalog goal action_id = elim (action_of action_id catalog) [
  | none ↦ raise (contract unknown_action)
  | some a ↦ do
    reject_if (not a.available) unknown_action
    reject_if
        (not (any (λ o. o =? "start") a.operations) || not (any (λ o. o =? "cancel") a.operations))
        cancel_unsupported
    elim (find action_id goal.parameters) [
      | none ↦ raise (contract missing_params)
      | some params ↦ within (outside.params_error a.schema params)
    ]
]

unfoldable pub check_actions : Outside → List CatalogAction → Goal → List String → Result (Unit {0})
check_actions outside catalog goal [] = ok tt
check_actions outside catalog goal (a ∷ rest) = do
  check_action outside catalog goal a
  check_actions outside catalog goal rest

-- the active goal has the same id
abbrev repeats : Option GoalRecord → String → Bool
repeats none goal_id = false
repeats (some g) goal_id = g.payload.goal_id =? goal_id

abbrev accept_reason : Option GoalRecord → String
accept_reason none = "goal_accepted"
accept_reason (some g) = "goal_replaced"

-- the statements of `submit` that change the state
unfoldable pub accept : Goal → ℕ → ℕ → Manager → Response × Manager
unfolding close_gate
accept goal revision now m =
    let phase = if eq_phase m.phase blocked then blocked else pending_cancel in
    let closed = close_gate (accept_reason m.active) m in
    (
      submitted goal.request_id m.ex_session goal.goal_id revision phase,
      record closed {
        revision = revision;
        pending_replace = some (record {
          payload = goal;
          revision = revision;
          expires_ns = now + goal.lease_ms * 1000000;
        });
        phase = phase;
        history =
            push_history (record { revision = revision; goal_id = goal.goal_id; phase = phase })
              m.history;
      },
    )

-- the checks of `submit` after `_replay`; the result is the next revision
unfoldable pub check_submit : Outside → List CatalogAction → Goal → Manager → Result ℕ
check_submit outside catalog goal m = do
  revision ← check_revision goal.expected_revision m.revision
  reject_if (ltb 128 (length goal.allowed_actions)) goal_capacity
  check_actions outside catalog goal goal.allowed_actions
  reject_if (repeats m.active goal.goal_id) revision_conflict
  ok revision

-- the checks that stand first in every request
unfoldable pub precheck : Outside → String → String → Request → Manager → Result (Option Response)
unfolding replay check_ex_session
precheck outside session request_id request m = do
  checked ← check_ex_session session m.ex_session
  replay request_id (outside.digest request) m

-- A request: the session and the replay first, then its own work, whose response is remembered.
unfoldable pub finish_work :
    Outside → String → Request → Result (Response × Manager) → Manager → Result Response × Manager
unfolding remember
finish_work outside request_id request (raise e) m = (raise e, m)
finish_work outside request_id request (ok (response, m')) m =
    (ok response, remember request_id (outside.digest request) response m')

unfoldable pub serve :
    Outside
    → String
    → String
    → Request
    → (Manager → Result (Response × Manager))
    → Manager
    → Result Response × Manager
serve outside session request_id request work m =
    elim (precheck outside session request_id request m) [
      | raise e ↦ (raise e, m)
      | ok (some response) ↦ (ok response, m)
      | ok none ↦ finish_work outside request_id request (work m) m
    ]

unfoldable pub submit_work :
    Outside → List CatalogAction → Goal → ℕ → Manager → Result (Response × Manager)
submit_work outside catalog goal now m = do
  revision ← check_submit outside catalog goal m
  ok (accept goal revision now m)

unfoldable pub submit :
    Outside → List CatalogAction → Goal → ℕ → Manager → Result Response × Manager
unfolding serve submit_work
submit outside catalog goal now m =
    serve outside goal.ex_session goal.request_id (submits goal)
      (submit_work outside catalog goal now) m

-- `req.reason_code or "goal_canceled"`
abbrev pub cancel_reason : String → String
cancel_reason reason = if reason =? "" then "goal_canceled" else reason

unfoldable pub cancel_work : GoalCancel → Manager → Result (Response × Manager)
cancel_work req m = do
  goal ← match_goal req.goal_id req.goal_revision m
  ok (canceled, (stop (cancel_reason req.reason_code) (some Ending.canceled) m).1)

unfoldable pub cancel : Outside → GoalCancel → Manager → Result Response × Manager
unfolding serve cancel_work
cancel outside req m = serve outside req.ex_session req.request_id (cancels req) (cancel_work req) m

-- The clock is read twice: for the check, and for the new lease.
unfoldable pub renew_work : GoalRenew → ℕ → ℕ → Manager → Result (Response × Manager)
renew_work req now later m = do
  goal ← match_goal req.goal_id req.goal_revision m
  reject_if (not (eq_phase m.phase active) || leb goal.expires_ns now) authorization_revoked
  ok (
    renewed goal.revision,
    record m { active = some (record goal { expires_ns = later + req.lease_ms * 1000000 }) },
  )

unfoldable pub renew : Outside → GoalRenew → ℕ → ℕ → Manager → Result Response × Manager
unfolding serve renew_work
renew outside req now later m =
    serve outside req.ex_session req.request_id (renews req) (renew_work req now later) m
