-- ===== src/Decision/Goal/Invariant.antt =====
-- The invariant of the goal manager: how its phase, its goals and its counters go together.
use astrbot_ex.Prelude.{
  ℕ, ◌+◌, ◌≤◌, String, ◌≡◌, ◌⊎◌, inl, inr, refl, ap, subst, true, false, Option, none, some, List,
  [], ◌∷◌, arith,
}
use astrbot_ex.Prelude.Table.{find}
use astrbot_ex.Actions.Error.{Result, ok, raise, ok-injective, ◌>>=◌}
use astrbot_ex.Actions.Checks.{check_revision, check_ex_session}
use astrbot_ex.Decision.Goal.Defs.{
  Goal, GoalCancel, GoalRenew, GoalRecord, Request, idle, pending_cancel, active,
  stopping as stopping_phase, awaiting_llm, Ending, submits, cancels, renews, Response, canceled,
  TerminalStop, Manager, new,
}
use astrbot_ex.Decision.Goal.Ops.{is_none, stop}
use astrbot_ex.Decision.Goal.Requests.{
  CatalogAction, Outside, precheck, replay, remember, finish_work, serve, submit_work, cancel_work,
  renew_work, check_submit, accept, cancel_reason, match_goal,
}
use astrbot_ex.Decision.Goal.Events.{
  Event, submitting, canceling, renewing, stopping, resolving, finishing, blocking, reviewing,
  awaiting, rejecting, expiring, step, run,
}

abbrev pub Below : Option GoalRecord → ℕ → Type 0
Below none n = Unit
Below (some g) n = g.revision ≤ n

abbrev pub Exactly : Option GoalRecord → ℕ → Type 0
Exactly none n = Unit
Exactly (some g) n = g.revision ≡ n

abbrev pub StoppedBy : Option TerminalStop → ℕ → Type 0
StoppedBy none n = Unit
StoppedBy (some t) n = t.epoch ≤ n

pub record IsValid (m : Manager) : Type 0 where
  -- Authority needs an active goal and excludes a waiting replacement.
  pub while_active :
      m.phase ≡ active → (is_none m.active ≡ false) × (is_none m.pending_replace ≡ true)
  pub while_awaiting :
      m.phase ≡ awaiting_llm → (is_none m.active ≡ false) × (is_none m.pending_replace ≡ true)
  pub while_idle : m.phase ≡ idle → (is_none m.active ≡ true) × (is_none m.pending_replace ≡ true)
  pub while_stopping : m.phase ≡ stopping_phase → is_none m.pending_replace ≡ true
  pub while_pending : m.phase ≡ pending_cancel → is_none m.pending_replace ≡ false
  pub active_revision : Below m.active m.revision
  pub pending_revision : Exactly m.pending_replace m.revision
  pub stop_epoch : StoppedBy m.terminal_stop m.gate_epoch

pub new-IsValid : (session : String) (limit : ℕ) → IsValid (new session limit)
unfolding new
new-IsValid session limit = ground arith

-- A request leaves the state, or it is new, its work is done and its response remembered.
abbrev pub ServeCases :
    Outside
    → String
    → String
    → Request
    → (Manager → Result (Response × Manager))
    → Manager
    → Result Response × Manager
    → Type 0
ServeCases outside session request_id request work m out =
    (out.1 ≡ m)
    ⊎ ((r : Response) × (m' : Manager) × (work m ≡ ok (r, m'))
        × (m.ex_session ≡ session)
        × (find request_id m.requests ≡ none)
        × (out ≡ (ok r, remember request_id (outside.digest request) r m')))

precheck_new :
    (outside : Outside) (session request_id : String) (request : Request) (m : Manager)
    → precheck outside session request_id request m ≡ ok none
    → (m.ex_session ≡ session) × (find request_id m.requests ≡ none)
unfolding precheck replay check_ex_session
precheck_new outside session request_id request m h = ground arith

module _ (outside : Outside) (session request_id : String) (request : Request)
    (work : Manager → Result (Response × Manager)) (m : Manager) where
  work_cases :
      (w : Result (Response × Manager))
      → precheck outside session request_id request m ≡ ok none
      → work m ≡ w
      → ServeCases outside session request_id request work m
          (finish_work outside request_id request w m)
  unfolding finish_work
  work_cases (raise e) p h = inl refl
  work_cases (ok (r, m')) p h =
      let (here, unseen) = precheck_new outside session request_id request m p in
      inr (r, m', h, here, unseen, refl)

  pub serve_cases :
      ServeCases outside session request_id request work m
        (serve outside session request_id request work m)
  unfolding serve
  serve_cases = at (precheck outside session request_id request m) refl
    where
      at :
          (p : Result (Option Response))
          → precheck outside session request_id request m ≡ p
          → ServeCases outside session request_id request work m
              (elim p as (λ _. Result Response × Manager) [
                | raise e ↦ (raise e, m)
                | ok (some response) ↦ (ok response, m)
                | ok none ↦ finish_work outside request_id request (work m) m
              ])
      at (raise e) h = inl refl
      at (ok (some response)) h = inl refl
      at (ok none) h = work_cases (work m) h refl

remember-IsValid :
    (request_id digest : String) (r : Response) (m : Manager)
    → IsValid m
    → IsValid (remember request_id digest r m)
unfolding remember
remember-IsValid request_id digest r m v = ground arith

serve-IsValid :
    (outside : Outside) (session request_id : String) (request : Request)
    (work : Manager → Result (Response × Manager)) (m : Manager)
    → ((r : Response) (m' : Manager) → work m ≡ ok (r, m') → IsValid m')
    → IsValid m
    → IsValid (serve outside session request_id request work m).1
serve-IsValid outside session request_id request work m kept v =
    elim (serve_cases outside session request_id request work m) [
      | inl same ↦ rw same v
      | inr (r, m', done, here, unseen, is) ↦
          rw is (remember-IsValid request_id (outside.digest request) r m' (kept r m' done))
    ]

pub stop-IsValid :
    (reason : String) (ending : Option Ending) (m : Manager)
    → IsValid m
    → IsValid (stop reason ending m).1
unfolding stop
stop-IsValid reason ending m v = ground arith

accept-IsValid :
    (goal : Goal) (revision now : ℕ) (m : Manager)
    → m.revision ≤ revision
    → IsValid m
    → IsValid (accept goal revision now m).1
unfolding accept
accept-IsValid goal revision now m h v = ground arith

pub check_submit_revision :
    (outside : Outside) (catalog : List CatalogAction) (goal : Goal) (m : Manager) (revision : ℕ)
    → check_submit outside catalog goal m ≡ ok revision
    → revision ≡ m.revision + 1
unfolding check_submit check_revision
check_submit_revision outside catalog goal m revision h = ground arith

-- what the last state of a successful chain satisfies
pub bind_keeps {ℓ} :
    {A : Type ℓ} (P : Manager → Type 0) (c : Result A) (f : A → Response × Manager) {r : Response}
    {m' : Manager}
    → ((a : A) → c ≡ ok a → P (f a).1)
    → (c >>= λ a. ok (f a)) ≡ ok (r, m')
    → P m'
bind_keeps P (ok a) f kept h = subst P (ap (λ x. x.1) (ok-injective h)) (kept a refl)
bind_keeps P (raise e) f kept h = cc

module _ (outside : Outside) (m : Manager) (v : IsValid m) where
  submit_work-IsValid :
      (catalog : List CatalogAction) (goal : Goal) (now : ℕ) (r : Response) (m' : Manager)
      → submit_work outside catalog goal now m ≡ ok (r, m')
      → IsValid m'
  unfolding submit_work
  submit_work-IsValid catalog goal now r m' h =
      bind_keeps IsValid (check_submit outside catalog goal m)
        (λ revision. accept goal revision now m)
        (λ revision passed.
          accept-IsValid goal revision now m
            (omega (arith, check_submit_revision outside catalog goal m revision passed)) v)
        h

  cancel_work-IsValid :
      (req : GoalCancel) (r : Response) (m' : Manager) → cancel_work req m ≡ ok (r, m') → IsValid m'
  unfolding cancel_work
  cancel_work-IsValid req r m' h =
      bind_keeps IsValid (match_goal req.goal_id req.goal_revision m)
        (λ goal. (canceled, (stop (cancel_reason req.reason_code) (some Ending.canceled) m).1))
        (λ goal _. stop-IsValid (cancel_reason req.reason_code) (some Ending.canceled) m v) h

  renew_work-IsValid :
      (req : GoalRenew) (now later : ℕ) (r : Response) (m' : Manager)
      → renew_work req now later m ≡ ok (r, m')
      → IsValid m'
  unfolding renew_work match_goal
  renew_work-IsValid req now later r m' h = ground arith

  -- Every method keeps the invariant.
  pub step-IsValid : (e : Event) → IsValid (step outside e m)
  unfolding step
  step-IsValid (submitting catalog goal now) =
      serve-IsValid outside goal.ex_session goal.request_id (submits goal)
        (submit_work outside catalog goal now) m (submit_work-IsValid catalog goal now) v
  step-IsValid (canceling req) =
      serve-IsValid outside req.ex_session req.request_id (cancels req) (cancel_work req) m
        (cancel_work-IsValid req) v
  step-IsValid (renewing req now later) =
      serve-IsValid outside req.ex_session req.request_id (renews req) (renew_work req now later) m
        (renew_work-IsValid req now later) v
  step-IsValid (stopping reason ending) = stop-IsValid reason ending m v
  step-IsValid (resolving epoch proven activate now) = ground arith
  step-IsValid (finishing goal epoch) = ground arith
  step-IsValid (blocking reason) = ground arith
  step-IsValid (reviewing epoch) = ground arith
  step-IsValid (awaiting revision reason) = ground arith
  step-IsValid (rejecting revision reason goal_id now) = ground arith
  step-IsValid (expiring now) = ground arith

-- The invariant of the goal manager holds after any calls of any methods: authority (`active`)
-- needs an active goal and excludes a waiting replacement, an idle manager has no goal at all, a
-- stopping one no replacement, a pending one has one; the replacement has the current revision and
-- the active goal none above it.
pub run-IsValid :
    (outside : Outside) (es : List Event) (m : Manager) → IsValid m → IsValid (run outside es m)
unfolding run
run-IsValid outside [] m v = v
run-IsValid outside (e ∷ es) m v =
    run-IsValid outside es (step outside e m) (step-IsValid outside m v e)
