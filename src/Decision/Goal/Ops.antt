-- ===== src/Decision/Goal/Ops.antt =====
-- The framework's operations of `GoalManager`: `_close_gate`, `stop`, `resolve_stop`,
-- `finish_stopped`, `block`, `reviewed`, `awaiting_llm`, `reject_decision`, `expire` of
-- astrbot_ex/core/decision/goal_manager.py. The clock's reading is an argument; the `_revoke`
-- callback runs once for each step of `gate_epoch`.
use mathlib.Core.Logic.{ite}
use astrbot_ex.Prelude.{
  ℕ, ◌+◌, String, Bool, true, false, not, Option, none, some, ◌&&◌, ◌||◌, ltb, leb, ◌==◌, ◌=?◌,
  if◌then◌else◌,
}
use astrbot_ex.Prelude.Text.{text_take}
use astrbot_ex.Decision.Goal.Defs.{
  GoalRecord, GoalRecord-discrete, OptionGoalRecord-discrete, idle, active, blocked, stopping,
  awaiting_llm, eq_phase, Ending, TerminalStop, Manager,
}

-- `a or b`
abbrev pub or_else : Option GoalRecord → Option GoalRecord → Option GoalRecord
or_else (some a) b = some a
or_else none b = b

abbrev pub is_none {ℓ} : {A : Type ℓ} → Option A → Bool
is_none none = true
is_none (some a) = false

unfoldable pub close_gate : String → Manager → Manager
close_gate reason m = record m { gate_epoch = m.gate_epoch + 1; reason = text_take 256 reason }

abbrev terminal_of :
    Option GoalRecord → ℕ → Option Ending → String → Option GoalRecord → Option TerminalStop
terminal_of (some target) epoch (some status) reason current = some (record {
  target = target;
  epoch = epoch;
  status = status;
  reason = text_take 256 reason;
  active = current;
})
terminal_of _ epoch _ reason current = none

-- The result is the new epoch.
unfoldable pub stop : String → Option Ending → Manager → ℕ × Manager
unfolding close_gate
stop reason ending m =
    let closed = close_gate reason m in
    (
      closed.gate_epoch,
      record closed {
        terminal_stop =
            terminal_of (or_else m.pending_replace m.active) closed.gate_epoch ending reason
              m.active;
        pending_replace = none;
        phase = if eq_phase m.phase blocked then blocked else stopping;
      },
    )

-- `pending and activate and clock < expires`
abbrev may_activate : Option GoalRecord → Bool → ℕ → Bool
may_activate none activate now = false
may_activate (some g) activate now = activate && ltb now g.expires_ns

unfoldable pub resolve_stop : ℕ → Bool → Bool → ℕ → Manager → Bool × Manager
resolve_stop epoch proven activate now m =
    if not (epoch == m.gate_epoch) || eq_phase m.phase blocked
    then (false, m)
    else if not proven
    then (false, record m { phase = blocked; reason = "stop_not_proven" })
    else if may_activate m.pending_replace activate now
    then (
      true,
      record m { active = m.pending_replace; pending_replace = none; phase = active; reason = "" },
    )
    else (
      false,
      record m {
        active = none;
        pending_replace = none;
        phase = idle;
        reason = "new_authorization_required";
      },
    )

abbrev same_record : Option GoalRecord → Option GoalRecord → Bool
same_record a b = ite (OptionGoalRecord-discrete a b) true false

-- the goal was revoked by the recorded stop, and nothing has changed since
abbrev revoked : Option TerminalStop → GoalRecord → ℕ → Manager → Bool
revoked none goal epoch m = false
revoked (some t) goal epoch m =
    ite (GoalRecord-discrete t.target goal) true false
    && t.epoch == epoch
    && eq_phase m.phase stopping
    && same_record m.active t.active

unfoldable pub finish_stopped : GoalRecord → ℕ → Manager → Bool × Manager
finish_stopped goal epoch m =
    if (not (same_record m.active (some goal)) && not (revoked m.terminal_stop goal epoch m))
      || not (m.gate_epoch == epoch)
      || not (is_none m.pending_replace)
      || not (m.revision == goal.revision)
      || eq_phase m.phase blocked
    then (false, m)
    else (
      true,
      record m {
        active = none;
        terminal_stop = none;
        phase = idle;
        reason = "new_authorization_required";
      },
    )

unfoldable pub block : String → Manager → Manager
unfolding close_gate
block reason m = record (close_gate reason m) { phase = blocked }

unfoldable pub reviewed : ℕ → Manager → Bool × Manager
unfolding close_gate
reviewed epoch m = if not (epoch == m.gate_epoch) then (false, m) else (
  true,
  record (close_gate "new_authorization_required" m) {
    active = none;
    pending_replace = none;
    phase = idle;
  },
)

abbrev has_revision : Option GoalRecord → ℕ → Bool
has_revision none revision = false
has_revision (some g) revision = g.revision == revision

unfoldable pub await_llm : ℕ → String → Manager → Manager
unfolding close_gate
await_llm revision reason m =
    if has_revision m.active revision && eq_phase m.phase active
    then record (close_gate reason m) { phase = awaiting_llm }
    else m

-- the active goal is the named one, and its lease has not run out
abbrev is_current : Option GoalRecord → ℕ → String → ℕ → Bool
is_current none revision goal_id now = false
is_current (some g) revision goal_id now =
    g.revision == revision && g.payload.goal_id =? goal_id && ltb now g.expires_ns

unfoldable pub reject_decision : ℕ → String → String → ℕ → Manager → Option TerminalStop × Manager
unfolding stop
reject_decision revision reason goal_id now m =
    if is_current m.active revision goal_id now
      && eq_phase m.phase active
      && is_none m.pending_replace
    then (let stopped = (stop reason (some Ending.failed) m).1 in (stopped.terminal_stop, stopped))
    else (none, m)

abbrev is_expired : Option GoalRecord → ℕ → Bool
is_expired none now = false
is_expired (some g) now = leb g.expires_ns now

unfoldable pub expire : ℕ → Manager → Bool × Manager
unfolding stop
expire now m =
    if is_expired (or_else m.pending_replace m.active) now
      && not (eq_phase m.phase blocked)
      && not (eq_phase m.phase stopping)
    then (true, (stop "goal_lease_expired" (some Ending.timed_out) m).1)
    else (false, m)
