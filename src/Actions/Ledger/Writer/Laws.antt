-- ===== src/Actions/Ledger/Writer/Laws.antt =====
-- What the writer's queue promises to callers (astrbot_ex/core/actions/ledger.py).
use astrbot_ex.Prelude.{ℕ, ◌≡◌, ◌≢◌, refl, true, List, [], ◌∷◌, arith}
use astrbot_ex.Actions.Ledger.Writer.{
  Writer, new_writer, future, submit, close, cancel, work, health, Act, submitting, canceling,
  closing, working, act, acts,
}
use astrbot_ex.Actions.Ledger.Writer.Fair.{IsFair, submit-IsFair, close-IsFair, cancel-IsFair}
use astrbot_ex.Actions.Ledger.Writer.Steps.{work_on-IsFair}

act-IsFair : (a : Act) (w : Writer) → IsFair w → IsFair (act a w)
unfolding act work
act-IsFair (submitting admission) w v = submit-IsFair admission w v
act-IsFair (canceling n) w v = cancel-IsFair n w v
act-IsFair closing w v = close-IsFair w v
act-IsFair (working turn) w v = work_on-IsFair w v w.stage turn w.queue refl refl

acts_keep : (given : List Act) (w : Writer) → IsFair w → IsFair (acts given w)
unfolding acts
acts_keep [] w v = v
acts_keep (a ∷ rest) w v = acts_keep rest (act a w) (act-IsFair a w v)

-- Whatever callers and the writer's thread do in whatever order, operations that fail, rollbacks that
-- raise and cancellations included: futures are taken up in the order in which they were given out, so
-- that those given out are those that the thread is done with, the one it is at, and those that wait.
-- While the thread serves, none that it is done with is left without a result; in all, at most one
-- is. The queue stays within its capacity and nothing is queued after the stop marker. Once the
-- thread has ended, none waits, and it ended with a fault or on a close; without a fault, none was
-- left without a result.
pub acts-IsFair : (maxsize : ℕ) (all : List Act) → IsFair (acts all (new_writer maxsize))
acts-IsFair maxsize all = acts_keep all (new_writer maxsize) (record {
  ordered = refl;
  bounded = omega arith;
  marker = tt;
  before_close = λ c. tt;
  faulted = λ e. cc;
  losses = omega arith;
  finished = λ e. cc;
})

act_blocks :
    (a : Act) (w : Writer) → w.admission_blocked ≡ true → (act a w).admission_blocked ≡ true
unfolding act submit close cancel work
act_blocks (submitting admission) w b = ground arith
act_blocks closing w b = ground arith
act_blocks (canceling n) w b = ground arith
act_blocks (working turn) w b = ground arith

acts_block :
    (all : List Act) (w : Writer)
    → w.admission_blocked ≡ true
    → (acts all w).admission_blocked ≡ true
unfolding acts
acts_block [] w b = b
acts_block (a ∷ rest) w b = acts_block rest (act a w) (act_blocks a w b)

refused : (w : Writer) → w.admission_blocked ≡ true → (n : ℕ) → (submit true w).0 ≢ future n
unfolding submit
refused w b n h = ground arith

-- Once admissions are blocked, by a full queue, a fault or a close, they stay blocked: no later
-- admission gets a future, and `health` says so.
pub admission_stays_blocked :
    (w : Writer) (all : List Act) (n : ℕ)
    → w.admission_blocked ≡ true
    → ((submit true (acts all w)).0 ≢ future n) × ((health (acts all w)).0 ≡ true)
admission_stays_blocked w all n b =
    let later = acts_block all w b in (refused (acts all w) later n, ground (arith, later))
