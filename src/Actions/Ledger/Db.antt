-- ===== src/Actions/Ledger/Db.antt =====
-- The SQLite database of the ledger and the statements that it runs: `_initialize` (the tables),
-- `_event`, `_snapshot` and the dataclasses of astrbot_ex/core/actions/ledger.py. A table with a
-- TEXT PRIMARY KEY is a keyed table; `events` is a list in the order of its AUTOINCREMENT key.
use astrbot_ex.Prelude.{
  ℕ, ◌+◌, String, Bool, true, false, Option, none, some, List, [], ◌∷◌, ◌++◌, ◌==◌, ◌=?◌, ◌&&◌,
  if◌then◌else◌,
}
use astrbot_ex.Prelude.Table.{Table, find, put}
use astrbot_ex.Prelude.Text.{sort}
use astrbot_ex.Actions.Error.{
  ErrorCode, contract, key_error, value_error, integrity, Result, ok, raise, ◌>>=◌, ◌>>◌,
  owner_mismatch,
}
use astrbot_ex.Actions.Status.{Status}
use astrbot_ex.Actions.Command.{Command, eq_command}

pub record OwnerBinding : Type 0 where
  pub owner : String
  pub generation : ℕ

pub record StopEvidence : Type 0 where
  pub command_id : String
  pub stopped : Bool
  pub source : String
  pub reference : String

-- a row of `stop_evidence`
pub record Proof : Type 0 where
  pub source : String
  pub reference : String

-- A value of an event's details: the JSON text of what the plugin sent, or the proof that the
-- ledger itself enters under the key `stop_evidence`.
pub data Detail : Type 0 where
  text : String → Detail
  proof : Proof → Detail

abbrev pub Details : Type 0
Details = Table Detail

-- The canonical JSON text of an admission: the command and its resources, sorted.
pub record Canonical : Type 0 where
  pub command : Command
  pub resources : List String

abbrev pub eq_names : List String → List String → Bool
eq_names [] [] = true
eq_names (x ∷ xs) (y ∷ ys) = x =? y && eq_names xs ys
eq_names _ _ = false

unfoldable pub eq_canonical : Canonical → Canonical → Bool
unfolding eq_command
eq_canonical a b = eq_command a.command b.command && eq_names a.resources b.resources

-- a row of `commands`, under its `command_id`
pub record CommandRow : Type 0 where
  pub canonical : Canonical
  pub owner : String
  pub generation : ℕ
  pub status : Status
  pub reason_code : String
  pub details : Details
  pub event_seq : ℕ
  pub task_id : String

-- a row of `events`
pub record EventRow : Type 0 where
  pub event_seq : ℕ
  pub command_id : String
  pub status : Status
  pub reason_code : String
  pub details : Details
  pub acknowledged : Bool
  pub event_id : String

pub record Db : Type 0 where
  pub commands : Table CommandRow
  -- the holder of each reserved resource
  pub resources : Table String
  pub events : List EventRow
  -- `sqlite_sequence` of `events`
  pub sequence : ℕ
  pub stop_evidence : Table Proof

abbrev pub empty_db : Db
empty_db = record { commands = []; resources = []; events = []; sequence = 0; stop_evidence = [] }

-- What `_event` measures: the whole event as it will be sent.
pub record Envelope : Type 0 where
  pub event_id : String
  pub event_seq : ℕ
  pub ex_session : String
  pub task_id : String
  pub goal_id : String
  pub goal_revision : ℕ
  pub command_id : String
  pub owner : String
  pub status : Status
  pub reason_code : String
  pub details : Details

-- `measure_json_budget` at the three kinds of value that the ledger measures; `none` is within the
-- budget.
pub record Budgets : Type 0 where
  pub of_command : Command → Option ErrorCode
  pub of_details : Details → Option ErrorCode
  pub of_event : Envelope → Option ErrorCode

abbrev pub within : Option ErrorCode → Result (Unit {0})
within none = ok tt
within (some code) = raise (contract code)

pub record Snapshot : Type 0 where
  pub command_id : String
  pub row : CommandRow
  pub held_resources : List String

-- INSERT INTO a table with a primary key
unfoldable pub insert {ℓ} : {V : Type ℓ} → String → V → Table V → Result (Table V)
insert k v t = elim (find k t) [ none ↦ ok (put k v t) | some w ↦ raise integrity ]

-- the names whose holder is `c`
unfoldable pub held_by : String → Table String → List String
held_by c [] = []
held_by c ((name, holder) ∷ t) = let rest = held_by c t in if holder =? c then name ∷ rest else rest

-- DELETE FROM resources WHERE command_id=?
unfoldable pub release : String → Table String → Table String
release c [] = []
release c ((name, holder) ∷ t) =
    let rest = release c t in if holder =? c then rest else (name, holder) ∷ rest

-- `_snapshot`
unfoldable pub snapshot : Db → String → Option Snapshot
unfolding held_by
snapshot db c = elim (find c db.commands) [
  | none ↦ none
  | some row ↦
      some (record { command_id = c; row = row; held_resources = sort (held_by c db.resources) })
]

-- `_snapshot` at the end of a transaction, where the row is there
abbrev pub take_snapshot : String → Db → Result (Snapshot × Db)
take_snapshot c db = elim (snapshot db c) [ none ↦ raise value_error | some s ↦ ok (s, db) ]

-- a row that must be there; Python raises `KeyError` where it is not
unfoldable pub fetch : Db → String → Result CommandRow
fetch db c = elim (find c db.commands) [ none ↦ raise key_error | some row ↦ ok row ]

-- `_binding`
unfoldable pub check_binding : CommandRow → OwnerBinding → Result (Unit {0})
check_binding row binding =
    if row.owner =? binding.owner && row.generation == binding.generation
    then ok tt
    else raise (contract owner_mismatch)

abbrev pub envelope : CommandRow → EventRow → Envelope
envelope row e = record {
  event_id = e.event_id;
  event_seq = e.event_seq;
  ex_session = row.canonical.command.ex_session;
  task_id = row.task_id;
  goal_id = row.canonical.command.goal_id;
  goal_revision = row.canonical.command.goal_revision;
  command_id = e.command_id;
  owner = row.owner;
  status = e.status;
  reason_code = e.reason_code;
  details = e.details;
}

-- `_event`: the fresh `event_id` is an argument; the result is the new sequence number.
unfoldable pub event : Budgets → String → String → Status → String → Details → Db → Result (ℕ × Db)
unfolding fetch
event budgets event_id c status reason details db =
    let e : EventRow = record {
      event_seq = db.sequence + 1;
      command_id = c;
      status = status;
      reason_code = reason;
      details = details;
      acknowledged = false;
      event_id = event_id;
    } in
    do
      row ← fetch db c
      within (budgets.of_event (envelope row e))
      ok (db.sequence + 1, record db { events = db.events ++ e ∷ []; sequence = db.sequence + 1 })

-- UPDATE commands SET status, reason_code, details_json, event_seq
unfoldable pub set_status : String → CommandRow → Status → String → Details → ℕ → Db → Db
set_status c row status reason details seq db = record db {
  commands =
      put c
        (record row { status = status; reason_code = reason; details = details; event_seq = seq })
        db.commands;
}

-- BEGIN IMMEDIATE ... commit, with a rollback where the body raises
unfoldable pub transaction {ℓ} : {A : Type ℓ} → (Db → Result (A × Db)) → Db → Result A × Db
transaction body db = elim (body db) [ ok (a, db') ↦ (ok a, db') | raise e ↦ (raise e, db) ]
