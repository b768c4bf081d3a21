-- ===== src/Actions/Status.antt =====
-- The life cycle of an action, the outcome of a cancellation and the phases of a goal submission:
-- `ActionStatus`, `LEGAL_TRANSITIONS`, `can_transition`, `apply_status`, `cancel_outcome`,
-- `decide_phase` of astrbot_ex/core/actions/models.py.
pub mod Laws
use astrbot_ex.Prelude.{Bool, true, false, not, Option, none, some, List, [], ◌∷◌, if◌then◌else◌}
use astrbot_ex.Actions.Error.{Result, ok, illegal_transition, reject_if, ◌>>=◌, ◌>>◌}

pub data Status : Type 0 where
  admitted rejected accepted running succeeded failed canceled timed_out unknown : Status

pub Status-discrete : Discrete Status
Status-discrete = hlevel

abbrev pub eq_status : Status → Status → Bool
eq_status admitted admitted = true
eq_status rejected rejected = true
eq_status accepted accepted = true
eq_status running running = true
eq_status succeeded succeeded = true
eq_status failed failed = true
eq_status canceled canceled = true
eq_status timed_out timed_out = true
eq_status unknown unknown = true
eq_status _ _ = false

-- `LEGAL_TRANSITIONS`: the statuses that may follow
unfoldable pub legal_transitions : Status → List Status
legal_transitions admitted = accepted ∷ rejected ∷ canceled ∷ timed_out ∷ unknown ∷ []
legal_transitions accepted = running ∷ succeeded ∷ failed ∷ canceled ∷ timed_out ∷ unknown ∷ []
legal_transitions running = succeeded ∷ failed ∷ canceled ∷ timed_out ∷ unknown ∷ []
legal_transitions _ = []

-- `TERMINAL_STATUSES` and `is_terminal`
unfoldable pub is_terminal : Status → Bool
is_terminal rejected = true
is_terminal succeeded = true
is_terminal failed = true
is_terminal canceled = true
is_terminal timed_out = true
is_terminal unknown = true
is_terminal _ = false

abbrev pub contains : Status → List Status → Bool
contains s [] = false
contains s (x ∷ xs) = if eq_status s x then true else contains s xs

unfoldable pub can_transition : Status → Status → Bool
unfolding legal_transitions
can_transition current incoming =
    if eq_status incoming current then true else contains incoming (legal_transitions current)

unfoldable pub apply_status : Status → Status → Result Status
unfolding can_transition
apply_status current incoming = do
  reject_if (not (can_transition current incoming)) illegal_transition
  ok incoming

-- `none` while the cancellation is pending
unfoldable pub cancel_outcome : Bool → Bool → Option Status
cancel_outcome has_stop_evidence late =
    if has_stop_evidence then some canceled else if late then some timed_out else none

pub data GoalPhase : Type 0 where
  accepted pending_cancel active blocked rejected : GoalPhase

unfoldable pub phase_enters_decision : GoalPhase → Bool
phase_enters_decision active = true
phase_enters_decision _ = false

unfoldable pub decide_phase : Bool → Bool → Bool → GoalPhase
decide_phase accepted? replacing old_stopped =
    if not accepted?
    then GoalPhase.rejected
    else if not replacing
    then GoalPhase.active
    else if old_stopped
    then GoalPhase.active
    else GoalPhase.blocked
