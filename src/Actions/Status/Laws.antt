-- ===== src/Actions/Status/Laws.antt =====
-- What holds of the life cycle of an action, for every sequence of reports.
use astrbot_ex.Prelude.{
  ℕ, suc, ◌≤◌, ◌≡◌, ◌↔◌, ◌⊎◌, refl, Bool, true, false, none, some, List, [], ◌∷◌, arith,
  if◌then◌else◌,
}
use astrbot_ex.Actions.Error.{ok, raise}
use astrbot_ex.Actions.Status.{
  Status, admitted, accepted, running, canceled, eq_status, is_terminal, can_transition,
  apply_status, cancel_outcome, decide_phase, phase_enters_decision,
}

-- One report for an action that has the status `s`: an illegal report is refused and leaves `s`.
unfoldable pub settle : Status → Status → Status
unfolding apply_status
settle s r = elim (apply_status s r) [ ok t ↦ t | raise e ↦ s ]

unfoldable pub follow : Status → List Status → Status
follow s [] = s
follow s (r ∷ rs) = follow (settle s r) rs

-- how often the status changes under the reports
unfoldable pub changes : Status → List Status → ℕ
changes s [] = 0
changes s (r ∷ rs) =
    let rest = changes (settle s r) rs in if eq_status (settle s r) s then rest else suc rest

settle_terminal : (s r : Status) → is_terminal s ≡ true → settle s r ≡ s
unfolding settle is_terminal
settle_terminal s r h = ground arith

-- A terminal status is never left: after any reports at all the status is the one it was.
pub follow_terminal : (s : Status) (rs : List Status) → is_terminal s ≡ true → follow s rs ≡ s
unfolding follow
follow_terminal s [] h = refl
follow_terminal s (r ∷ rs) h = ground (arith, settle_terminal s r, follow_terminal s rs)

-- how many changes are left at most
abbrev rank : Status → ℕ
rank admitted = 3
rank accepted = 2
rank running = 1
rank _ = 0

settle-rank :
    (s r : Status)
    → ((eq_status (settle s r) s ≡ true) × (rank (settle s r) ≤ rank s))
      ⊎ ((eq_status (settle s r) s ≡ false) × (suc (rank (settle s r)) ≤ rank s))
unfolding settle
settle-rank s r = ground arith

changes-le-rank : (s : Status) (rs : List Status) → changes s rs ≤ rank s
unfolding changes
changes-le-rank s [] = omega arith
changes-le-rank s (r ∷ rs) = ground (arith, settle-rank s r, changes-le-rank (settle s r) rs)

-- Whatever is reported, and however often, the status of an action changes at most three times.
pub changes-le : (s : Status) (rs : List Status) → changes s rs ≤ 3
changes-le s rs = ground (arith, changes-le-rank s rs)

follow-rank : (s : Status) (rs : List Status) → rank (follow s rs) ≤ rank s
unfolding follow
follow-rank s [] = omega arith
follow-rank s (r ∷ rs) = ground (arith, settle-rank s r, follow-rank (settle s r) rs)

can_transition-rank :
    (s t : Status) → can_transition s t ≡ true → eq_status s t ≡ false → suc (rank t) ≤ rank s
unfolding can_transition
can_transition-rank s t h n = ground arith

differ_by_rank : (s t : Status) → suc (rank s) ≤ rank t → eq_status s t ≡ false
differ_by_rank s t h = ground arith

-- An action never returns to a status that it left: if `t` is legal after `s` and differs from it,
-- then after any further reports the status is not `s`.
pub no_return :
    (s t : Status) (rs : List Status)
    → can_transition s t ≡ true
    → eq_status s t ≡ false
    → eq_status (follow t rs) s ≡ false
no_return s t rs h n =
    differ_by_rank (follow t rs) s (omega (arith, follow-rank t rs, can_transition-rank s t h n))

-- An action is `canceled` only on stop evidence, and a pending cancellation that has neither
-- evidence nor run out of time has no status yet.
pub cancel_outcome_lem :
    (evidence late : Bool)
    → ((cancel_outcome evidence late ≡ some canceled) ↔ (evidence ≡ true))
      × ((cancel_outcome evidence late ≡ none) ↔ ((evidence ≡ false) × (late ≡ false)))
unfolding cancel_outcome
cancel_outcome_lem evidence late = ground arith

-- A goal submission enters decision exactly if it is accepted and either replaces no live goal or
-- the old one has stopped.
pub decide_phase_lem :
    (accepted? replacing old_stopped : Bool)
    → (phase_enters_decision (decide_phase accepted? replacing old_stopped) ≡ true)
      ↔ ((accepted? ≡ true) × ((replacing ≡ false) ⊎ (old_stopped ≡ true)))
unfolding decide_phase phase_enters_decision
decide_phase_lem a r o = ground arith
