-- ===== src/Decision/Goal/Defs.antt =====
-- The state of `GoalManager` and its requests (astrbot_ex/core/decision/goal_manager.py, and
-- `GoalSubmit`, `GoalCancel`, `GoalRenew`, `GoalSubmitResult` of astrbot_ex/core/decision/models.py).
-- Requests are the parsed ones.
use astrbot_ex.Prelude.{ℕ, String, Bool, Option, none, List, [], String-discrete}
use astrbot_ex.Prelude.Table.{Table}
use native.Mathlib.Decide.{ℕ_discrete}

pub record Goal : Type 0 where
  pub request_id : String
  pub ex_session : String
  pub task_id : String
  pub step_id : String
  pub goal_id : String
  pub goal_text_en : String
  pub allowed_actions : List String
  -- the JSON text of each action's parameters, in key order
  pub parameters : Table String
  -- the JSON text of the completion rule
  pub completion : String
  pub lease_ms : ℕ
  pub expected_revision : Option ℕ

pub record GoalCancel : Type 0 where
  pub request_id : String
  pub ex_session : String
  pub goal_id : String
  pub goal_revision : ℕ
  pub reason_code : String

pub record GoalRenew : Type 0 where
  pub request_id : String
  pub ex_session : String
  pub goal_id : String
  pub goal_revision : ℕ
  pub lease_ms : ℕ

-- what `_replay` takes the digest of: the kind and the payload
pub data Request : Type 0 where
  submits : Goal → Request
  cancels : GoalCancel → Request
  renews : GoalRenew → Request

pub record GoalRecord : Type 0 where
  pub payload : Goal
  pub revision : ℕ
  pub expires_ns : ℕ

pub GoalRecord-discrete : Discrete GoalRecord
GoalRecord-discrete = hlevel (String-discrete, ℕ_discrete)

pub OptionGoalRecord-discrete : Discrete (Option GoalRecord)
OptionGoalRecord-discrete = hlevel (GoalRecord-discrete)

pub data Phase : Type 0 where
  idle pending_cancel active blocked stopping awaiting_llm : Phase

abbrev pub eq_phase : Phase → Phase → Bool
eq_phase idle idle = Bool.true
eq_phase pending_cancel pending_cancel = Bool.true
eq_phase active active = Bool.true
eq_phase blocked blocked = Bool.true
eq_phase stopping stopping = Bool.true
eq_phase awaiting_llm awaiting_llm = Bool.true
eq_phase _ _ = Bool.false

-- the terminal statuses that `stop` records
pub data Ending : Type 0 where
  canceled timed_out failed : Ending

-- the tuple `_terminal_stop`
pub record TerminalStop : Type 0 where
  pub target : GoalRecord
  pub epoch : ℕ
  pub status : Ending
  pub reason : String
  pub active : Option GoalRecord

pub data Response : Type 0 where
  -- request, session, goal, revision and phase of `GoalSubmitResult`
  submitted : String → String → String → ℕ → Phase → Response
  canceled : Response
  renewed : ℕ → Response

pub record HistoryEntry : Type 0 where
  pub revision : ℕ
  pub goal_id : String
  pub phase : Phase

pub record Manager : Type 0 where
  pub ex_session : String
  pub revision : ℕ
  pub gate_epoch : ℕ
  pub active : Option GoalRecord
  pub pending_replace : Option GoalRecord
  pub terminal_stop : Option TerminalStop
  pub phase : Phase
  pub reason : String
  -- the digest and the response of each request
  pub requests : Table (String × Response)
  pub request_limit : ℕ
  pub history : List HistoryEntry

-- `__init__`
unfoldable pub new : String → ℕ → Manager
new session limit = record {
  ex_session = session;
  revision = 0;
  gate_epoch = 0;
  active = none;
  pending_replace = none;
  terminal_stop = none;
  phase = idle;
  reason = "new_authorization_required";
  requests = [];
  request_limit = limit;
  history = [];
}
