-- ===== src/Actions/Ledger/Writer/Examples.antt =====
-- Runs of the writer's queue.
use astrbot_ex.Prelude.{◌≡◌, refl, true, false, List, [], ◌∷◌}
use astrbot_ex.Actions.Ledger.Writer.{
  new_writer, settled, canceled, lost, fine, sqlite_error, failed, Act, submitting, canceling,
  closing, working, submit, close, cancel, work, take_item, operate, roll_back, fail_item, act,
  acts,
}
use astrbot_ex.Actions.Ledger.Writer.Fair.{IsFair}
use astrbot_ex.Actions.Ledger.Writer.Laws.{acts-IsFair}

-- the first is answered while the second comes, which its caller cancels; then a close
abbrev doings : List Act
doings =
    submitting true
    ∷ working fine
    ∷ submitting false
    ∷ canceling 1
    ∷ working fine
    ∷ working fine
    ∷ closing
    ∷ submitting true
    ∷ working fine
    ∷ []

acts-IsFair_example : IsFair (acts doings (new_writer 2))
acts-IsFair_example = acts-IsFair 2 doings

test_doings : (acts doings (new_writer 2)).gone ≡ (0, settled) ∷ (1, canceled) ∷ []
unfolding acts act submit close cancel work take_item operate
test_doings = refl

-- The rollback after a fault raises: the first future gets no result, and the second one the fault.
abbrev broken : List Act
broken =
    submitting true
    ∷ submitting true
    ∷ working fine
    ∷ working sqlite_error
    ∷ working failed
    ∷ working fine
    ∷ working fine
    ∷ working fine
    ∷ []

test_broken : (acts broken (new_writer 2)).gone ≡ (0, lost) ∷ (1, settled) ∷ []
unfolding acts act submit close work take_item operate roll_back fail_item
test_broken = refl
