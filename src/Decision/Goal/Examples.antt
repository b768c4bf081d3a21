-- ===== src/Decision/Goal/Examples.antt =====
-- Runs of the goal manager on concrete requests: a goal that is submitted, activated and renewed.
use astrbot_ex.Prelude.{
  ℕ, ◌≤◌, ◌<◌, String, String-discrete, ◌≡◌, ◌≢◌, ◌⊎◌, refl, Bool, true, false, none, some, List,
  [], ◌∷◌, arith,
}
use astrbot_ex.Prelude.Table.{find, put}
use astrbot_ex.Prelude.Text.{text_take}
use astrbot_ex.Actions.Error.{ok}
use astrbot_ex.Actions.Checks.{check_ex_session, check_revision}
use astrbot_ex.Decision.Goal.Defs.{
  Goal, GoalRenew, Request, submits, cancels, renews, GoalRecord, pending_cancel, active, blocked,
  submitted, renewed, Manager, new,
}
use astrbot_ex.Decision.Goal.Ops.{close_gate, resolve_stop, finish_stopped}
use astrbot_ex.Decision.Goal.Requests.{
  CatalogAction, Outside, match_goal, check_action, check_actions, accept, check_submit, precheck,
  replay, remember, finish_work, serve, submit_work, submit, renew_work, renew,
}
use astrbot_ex.Decision.Goal.Events.{
  Event, submitting, stopping, resolving, finishing, reviewing, awaiting, expiring, step, run,
}
use astrbot_ex.Decision.Goal.Invariant.{IsValid, new-IsValid, run-IsValid}
use astrbot_ex.Decision.Goal.Authority.{
  Granted, authority_needs_proof, blocked_until_review, epoch_grows,
}
use astrbot_ex.Decision.Goal.Once.{perform, Replayed, answered_once}
use astrbot_ex.Decision.Goal.Lease.{IsReplay, IsRenewal, renewed_live}

-- a digest that tells the kinds of requests apart, and parameters that always fit
abbrev outside : Outside
outside = record { digest = kind; params_error = λ schema params. none }
  where
    kind : Request → String
    kind (submits goal) = "submit"
    kind (cancels req) = "cancel"
    kind (renews req) = "renew"

abbrev catalog : List CatalogAction
catalog =
    (record {
      action_id = "pick";
      available = true;
      operations = "start" ∷ "cancel" ∷ [];
      schema = "{}";
    })
    ∷ []

abbrev goal : Goal
goal = record {
  request_id = "r1";
  ex_session = "s";
  task_id = "t";
  step_id = "step";
  goal_id = "g1";
  goal_text_en = "pick the cup";
  allowed_actions = "pick" ∷ [];
  parameters = ("pick", "{}") ∷ [];
  completion = "{}";
  lease_ms = 10;
  expected_revision = some 0;
}

abbrev granted : GoalRecord
granted = record { payload = goal; revision = 1; expires_ns = 10000005 }

-- after the goal was submitted at 5 ns
abbrev waiting : Manager
waiting = record (new "s" 8) {
  revision = 1;
  gate_epoch = 1;
  pending_replace = some granted;
  phase = pending_cancel;
  reason = "goal_accepted";
  requests = ("r1", ("submit", submitted "r1" "s" "g1" 1 pending_cancel)) ∷ [];
  history = (record { revision = 1; goal_id = "g1"; phase = pending_cancel }) ∷ [];
}

test_submit :
    perform outside catalog 5 5 (submits goal) (new "s" 8)
    ≡ (ok (submitted "r1" "s" "g1" 1 pending_cancel), waiting)
unfolding perform submit serve precheck replay check_ex_session submit_work check_submit
    check_revision check_actions check_action accept close_gate finish_work remember text_take new
    find put String-discrete
test_submit = refl

answered_once_example :
    Replayed outside [] 9 9 "submit"
      (submitted "r1" "s" "g1" 1 pending_cancel)
      (submits goal)
      (run outside (resolving 1 true true 6 ∷ expiring 20000000 ∷ []) waiting)
answered_once_example =
    answered_once outside catalog [] 5 5 9 9 (submits goal) (submits goal)
      (submitted "r1" "s" "g1" 1 pending_cancel) (new "s" 8) waiting
      (resolving 1 true true 6 ∷ expiring 20000000 ∷ []) test_submit refl refl

abbrev calls : List Event
calls =
    submitting catalog goal 5
    ∷ resolving 1 true true 6
    ∷ awaiting 1 "help"
    ∷ stopping "user" none
    ∷ resolving 3 true false 7
    ∷ []

run-IsValid_example : IsValid (run outside calls (new "s" 8))
run-IsValid_example = run-IsValid outside calls (new "s" 8) (new-IsValid "s" 8)

-- after the stop before it is proven
abbrev working : Manager
working = record waiting {
  active = some granted;
  pending_replace = none;
  phase = active;
  reason = "";
}

test_resolve : step outside (resolving 1 true true 6) waiting ≡ working
unfolding step resolve_stop
test_resolve = refl

idle_before : waiting.phase ≢ active
unfolding new
idle_before h = cc

now_active : (step outside (resolving 1 true true 6) waiting).phase ≡ active
unfolding step resolve_stop
now_active = refl

authority_needs_proof_example :
    Granted outside waiting
      (resolving 1 true true 6)
      (step outside (resolving 1 true true 6) waiting)
authority_needs_proof_example =
    authority_needs_proof outside waiting (resolving 1 true true 6) idle_before now_active

abbrev halted : Manager
halted = record waiting { phase = blocked }

blocked_until_review_example :
    ((step outside (submitting catalog goal 9) halted).phase ≡ blocked)
    ⊎ (submitting catalog goal 9 ≡ reviewing 1)
unfolding new
blocked_until_review_example = blocked_until_review outside halted (submitting catalog goal 9) refl

epoch_grows_example :
    (working.gate_epoch ≤ (step outside (expiring 20000000) working).gate_epoch)
    × (working.revision ≤ (step outside (expiring 20000000) working).revision)
    × (working.phase ≡ active
        → (step outside (expiring 20000000) working).phase ≢ active
        → (working.gate_epoch < (step outside (expiring 20000000) working).gate_epoch)
          ⊎ ((proven activate : Bool) × (now : ℕ) × (expiring 20000000
                ≡ resolving working.gate_epoch proven activate now))
          ⊎ ((g : GoalRecord) × (expiring 20000000 ≡ finishing g working.gate_epoch)))
epoch_grows_example = epoch_grows outside working (expiring 20000000)

test_finish : (finish_stopped granted 1 working).0 ≡ true
unfolding finish_stopped new
test_finish = ground arith

abbrev renewal : GoalRenew
renewal = record {
  request_id = "r2";
  ex_session = "s";
  goal_id = "g1";
  goal_revision = 1;
  lease_ms = 10;
}

working-IsValid : IsValid working
unfolding new
working-IsValid = ground arith

test_renew : (renew outside renewal 7 8 working).0 ≡ ok (renewed 1)
unfolding renew serve precheck replay check_ex_session finish_work renew_work match_goal new
    String-discrete find
test_renew = refl

renewed_live_example :
    ("s" ≡ working.ex_session)
    × (IsReplay outside renewal (renewed 1) working (renew outside renewal 7 8 working).1
        ⊎ ((find "r2" working.requests ≡ none)
            × IsRenewal outside renewal 7 8
                (renewed 1)
                working
                (renew outside renewal 7 8 working).1))
renewed_live_example =
    renewed_live outside renewal 7 8 working (renewed 1) working-IsValid test_renew
