-- ===== src/Actions/Ledger/Writer.antt =====
-- The queue and the thread of the writer: `__init__`, `_run`, `health`, `_submit` and `close` of
-- `ActionLedger` in astrbot_ex/core/actions/ledger.py. A queued operation is the number of its
-- future; what the operation does to the database is in the modules beside this one.
pub mod Fair
pub mod Order
pub mod Steps
pub mod Laws
mod Examples
use astrbot_ex.Prelude.{
  ℕ, suc, ◌+◌, Bool, true, false, not, List, [], ◌∷◌, ◌++◌, ◌&&◌, ◌||◌, leb, if◌then◌else◌, length,
  any, ◌==◌,
}

-- an entry of `_queue`; `stop` is `None`
pub data Item : Type 0 where
  job : ℕ → Item
  stop : Item

-- Where the thread is: before the next item, in an operation, before the rollback after `sqlite3.Error`
-- or after another exception, before the handler around the loop, in the loop that fails what is
-- queued, or at its end.
pub data Stage : Type 0 where
  serving : Stage
  operating faulting undoing : ℕ → Stage
  aborting failing ended : Stage

-- What became of a future: it has a result or an exception, its caller canceled it, or the thread
-- went on without setting either.
pub data Fate : Type 0 where
  settled canceled lost : Fate

pub record Writer : Type 0 where
  pub maxsize : ℕ
  pub queue : List Item
  pub closed : Bool
  pub admission_blocked : Bool
  pub fault : Bool
  pub stage : Stage
  -- the futures given out, in order, and those that callers canceled before they ran
  pub accepted : List ℕ
  pub called_off : List ℕ
  -- those that the thread is done with, in order
  pub gone : List (ℕ × Fate)

-- `__init__`, after a recovery that succeeded
abbrev pub new_writer : ℕ → Writer
new_writer maxsize = record {
  maxsize = maxsize;
  queue = [];
  closed = false;
  admission_blocked = false;
  fault = false;
  stage = serving;
  accepted = [];
  called_off = [];
  gone = [];
}

pub data Answer : Type 0 where
  future : ℕ → Answer
  ledger_fault ledger_closed ledger_busy : Answer
  -- of `close`
  accepted_close : Answer

abbrev pub is_full : Writer → Bool
is_full w = leb w.maxsize (length w.queue)

-- `_submit`; the futures are numbered in the order in which they are given out
unfoldable pub submit : Bool → Writer → Answer × Writer
submit admission w =
    if w.fault
    then (ledger_fault, w)
    else if w.closed
    then (ledger_closed, w)
    else if admission && w.admission_blocked
    then (ledger_busy, w)
    else if is_full w
    then (ledger_busy, record w { admission_blocked = true })
    else (
      future (length w.accepted),
      record w {
        queue = w.queue ++ job (length w.accepted) ∷ [];
        accepted = w.accepted ++ length w.accepted ∷ [];
      },
    )

-- `close`, up to the wait for the thread
unfoldable pub close : Writer → Answer × Writer
close w =
    if w.closed
    then (accepted_close, record w { admission_blocked = true })
    else if is_full w
    then (ledger_busy, record w { admission_blocked = true })
    else (
      accepted_close,
      record w { admission_blocked = true; closed = true; queue = w.queue ++ stop ∷ [] },
    )

-- `Future.cancel`: a future that waits is canceled, and one that runs or is done is not.
abbrev waits : ℕ → List Item → Bool
waits n [] = false
waits n (job m ∷ q) = n == m || waits n q
waits n (stop ∷ q) = waits n q

unfoldable pub cancel : ℕ → Writer → Writer
cancel n w = if waits n w.queue then record w { called_off = n ∷ w.called_off } else w

abbrev pub is_called_off : ℕ → Writer → Bool
is_called_off n w = any (λ m. m == n) w.called_off

abbrev pub done_with : ℕ → Fate → Writer → Writer
done_with n fate w = record w { gone = w.gone ++ (n, fate) ∷ [] }

-- How an operation or a rollback goes. `interrupted` is an exception that is no `Exception`.
pub data Turn : Type 0 where
  fine sqlite_error failed interrupted : Turn

-- `_queue.get` and `set_running_or_notify_cancel`
unfoldable pub take_item : Item → List Item → Writer → Writer
take_item stop rest w = record w { queue = rest; stage = ended }
take_item (job n) rest w =
    if is_called_off n w
    then record (done_with n canceled w) { queue = rest }
    else record w { queue = rest; stage = operating n }

-- `operation(conn)`, with `set_result` or the first statements of a handler
unfoldable pub operate : ℕ → Turn → Writer → Writer
operate n fine w = record (done_with n settled w) { stage = serving }
operate n sqlite_error w = record w { fault = true; admission_blocked = true; stage = faulting n }
operate n failed w = record w { stage = undoing n }
operate n interrupted w = record (done_with n lost w) { stage = aborting }

-- `conn.rollback()` in a handler, and `set_exception` if the rollback did not raise
unfoldable pub roll_back : ℕ → Turn → Stage → Writer → Writer
roll_back n fine next w = record (done_with n settled w) { stage = next }
roll_back n _ next w = record (done_with n lost w) { stage = aborting }

-- One pass of the loop that fails what is queued.
unfoldable pub fail_item : Item → List Item → Writer → Writer
fail_item stop rest w = record w { queue = rest }
fail_item (job n) rest w =
    record (done_with n (if is_called_off n w then canceled else settled) w) { queue = rest }

abbrev pub work_on : Stage → Turn → List Item → Writer → Writer
work_on serving turn [] w = w
work_on serving turn (i ∷ rest) w = take_item i rest w
work_on (operating n) turn q w = operate n turn w
work_on (faulting n) turn q w = roll_back n turn aborting w
work_on (undoing n) turn q w = roll_back n turn serving w
work_on aborting turn q w = record w { fault = true; stage = failing }
work_on failing turn [] w = record w { stage = ended }
work_on failing turn (i ∷ rest) w = fail_item i rest w
work_on ended turn q w = w

-- a step of the thread, between which callers have theirs
unfoldable pub work : Turn → Writer → Writer
unfolding take_item operate roll_back fail_item
work turn w = work_on w.stage turn w.queue w

-- `health`: whether admissions are blocked, whether it is closed, whether it failed
abbrev pub health : Writer → Bool × Bool × Bool
health w = (w.admission_blocked || w.fault || w.closed, w.closed, w.fault)

-- What callers and the thread do. Only what stands under the guard is one step.
pub data Act : Type 0 where
  submitting : Bool → Act
  canceling : ℕ → Act
  closing : Act
  working : Turn → Act

unfoldable pub act : Act → Writer → Writer
unfolding submit close cancel work
act (submitting admission) w = (submit admission w).1
act (canceling n) w = cancel n w
act closing w = (close w).1
act (working turn) w = work turn w

unfoldable pub acts : List Act → Writer → Writer
acts [] w = w
acts (a ∷ rest) w = acts rest (act a w)
