-- ===== src/Decision/Goal/Events.antt =====
-- Everything that can happen to a `GoalManager`, one method call after the other (each runs under
-- its lock): astrbot_ex/core/decision/goal_manager.py.
use astrbot_ex.Prelude.{ℕ, String, Bool, Option, List, [], ◌∷◌}
use astrbot_ex.Decision.Goal.Defs.{Goal, GoalCancel, GoalRenew, GoalRecord, Ending, Manager}
use astrbot_ex.Decision.Goal.Ops.{
  stop, resolve_stop, finish_stopped, block, reviewed, await_llm, reject_decision, expire,
}
use astrbot_ex.Decision.Goal.Requests.{CatalogAction, Outside, submit, cancel, renew}

-- A number in front is an epoch or a revision; the clock's reading stands last.
pub data Event : Type 0 where
  submitting : List CatalogAction → Goal → ℕ → Event
  canceling : GoalCancel → Event
  renewing : GoalRenew → ℕ → ℕ → Event
  stopping : String → Option Ending → Event
  resolving : ℕ → Bool → Bool → ℕ → Event
  finishing : GoalRecord → ℕ → Event
  blocking : String → Event
  reviewing : ℕ → Event
  awaiting : ℕ → String → Event
  rejecting : ℕ → String → String → ℕ → Event
  expiring : ℕ → Event

unfoldable pub step : Outside → Event → Manager → Manager
unfolding submit cancel renew stop resolve_stop finish_stopped block reviewed await_llm
    reject_decision expire
step outside (submitting catalog goal now) m = (submit outside catalog goal now m).1
step outside (canceling req) m = (cancel outside req m).1
step outside (renewing req now later) m = (renew outside req now later m).1
step outside (stopping reason ending) m = (stop reason ending m).1
step outside (resolving epoch proven activate now) m = (resolve_stop epoch proven activate now m).1
step outside (finishing goal epoch) m = (finish_stopped goal epoch m).1
step outside (blocking reason) m = block reason m
step outside (reviewing epoch) m = (reviewed epoch m).1
step outside (awaiting revision reason) m = await_llm revision reason m
step outside (rejecting revision reason goal_id now) m =
    (reject_decision revision reason goal_id now m).1
step outside (expiring now) m = (expire now m).1

unfoldable pub run : Outside → List Event → Manager → Manager
run outside [] m = m
run outside (e ∷ es) m = run outside es (step outside e m)
