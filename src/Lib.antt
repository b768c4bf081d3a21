-- ===== src/Lib.antt =====
-- The core of AstrbotEX (astrbot_ex/core): which action commands are admitted and what becomes of
-- them, and which goal has the authority to act.
--
-- Prelude: Boolean tests, lists over native numbers, keyed tables (Prelude/Table) and Python texts
-- (Prelude/Text), passed on for all parts.
--
-- Actions models astrbot_ex/core/actions.
--   Actions/Error: `ContractError`, `ValueError`, `KeyError`, `sqlite3.IntegrityError` as values of
--     a result type; a `do` block stands for a chain of calls that may raise.
--   Actions/Status: `ActionStatus`, `LEGAL_TRANSITIONS` and the functions on them, of models.py.
--   Actions/Checks: `check_ex_session`, `check_revision`, `check_resources`.
--   Actions/Command: `ActionCommand` as the ledger checks it again, with typed fields.
--   Actions/Ledger: `ActionLedger` of ledger.py. `Db` is the SQLite database with its tables
--     `commands`, `resources`, `events`, `stop_evidence`; `transaction` gives the rollback. Each
--     call is the checks before it is queued (`prepare_admit`, `prepare_report`,
--     `prepare_reconcile`, `prepare_ack`) and the transaction of the writer thread (`admit`,
--     `report`, `reconcile_stop`, `ack`); `recover` is the recovery of `_initialize`. The writer is
--     one thread, so `Calls.run` is any sequence of calls, a restart being one of them.
--     `measure_json_budget` is the parameter `Budgets`; fresh event ids are arguments. A JSON text
--     is kept as the values that it is the text of, so that texts are equal as those values are.
--     Actions/Ledger/Writer models the queue and the thread itself: `_submit`, `_run`, `close` and
--     `Future.cancel`, with an operation as the number of its future. A step of `_run` is what
--     stands between two points where callers can act, so an operation and the rollback after it are
--     steps of their own, and either may raise.
--
-- Decision models astrbot_ex/core/decision.
--   Decision/Goal: `GoalManager` of goal_manager.py, every method; each runs under its lock, so
--     `Events.run` is any sequence of calls. The clock's readings are arguments; the digest of a
--     request and the validation of parameters are the parameter `Outside`.
--
--   Decision/Journal: `FeedbackJournal` of feedback_journal.py: `Facts` (`_append`, `_collect`),
--     `Completion`, `Pages` (`ack`, `pending`, `events` with `EventsReply.parse`, whose budget a large
--     page can exceed), `Evidence` (`completion`), and `Calls.run`, any sequence of its calls.
--     A state has the rows of the journal's own session. The pages of the ledger are arguments;
--     `uuid5`, the length of a canonical text and equality of dictionaries are the parameter
--     `Outside`.
--
-- Wire models the values that come as JSON, and the parsers of actions/models.py and
-- decision/models.py.
--   Wire/Json: JSON values as trees, and the sizes of scalars.
--   Wire/Budget: `measure_json_budget` and `find_non_finite`, the walk with a stack; Budget/Weight has
--     the same as a recursion over the value, Budget/Fits the measures that it stands for. The walk
--     counts six bytes for every control character; Fits/Text compares that with the compact text.
--   Wire/Fields: `require_object` and the other checks of single values; Wire/Returns has the rule
--     for what a chain of such checks returns.
--   Wire/Registry: `IdempotencyRegistry`; `json.dumps` is the parameter `canonical`.
--   Wire/Messages: `ActionCommand`, `ActionEvent`, `GoalSubmit`, `GoalCancel`, `GoalRenew` and
--     `Feedback`, each with its `parse` and `to_dict`.
--
-- Events models astrbot_ex/core/event_bus.py and event_stream.py.
--   Events/Event: the level of an event and whether it is published; `str.lower` is a parameter.
--   Events/Bus: `EventBus` as a ring of retained events with its counter and throttle keys; the
--     callbacks of the subscribers run outside its lock, so they are steps of each stream.
--   Events/Stream: `EventStream`, the buffer of one subscriber, with `_on_event`, `_take_locked` and
--     `close` in any order (`run`). `_buffer` and `_sizes` are one list of slots.
--
-- Voice models astrbot_ex/core/voice. Voice/Gate: `ConversationGate` of gate.py. Scores and thresholds
--   are thousandths and times milliseconds; the module `re` and the client that scores are parameters.
--   `reset`, which no code calls, is left out.
--
-- Topics models astrbot_ex/core/topic_bus.py: `TopicBus` with its bounded inboxes. Handlers are code of
--   the subscribers; `publish` gives the tokens of those that it calls.
--
-- All loops are structural recursion, but three. The eviction loop of a stream has the number of
-- frames in its buffer as fuel: each pass removes one, and the bounds theorem says that the loop then
-- ends within the limits. The walk over a JSON value has the rounds that the value takes if nothing
-- is refused, and a theorem says that it ends. The flush before a goal's summary has the source's own
-- 80 rounds. A number is the native ℕ; the
-- bounds of the source (2**53 - 1 for a sequence, 256 for an id) are tests of the model as they are
-- in the source.
--
-- Not modelled: the source label of an event and its projection for transport, the paths and
-- messages of parse errors, values with cycles or lone surrogates, parameter schemas and manifests,
-- the snapshots of the journal and of the decision state, the action service and its dispatcher, the
-- decision service and its backends, environments, plugins and the dashboard.
pub mod Actions
pub mod Decision
pub mod Events
pub mod Prelude
pub mod Topics
pub mod Voice
pub mod Wire
