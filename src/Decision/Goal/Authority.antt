-- ===== src/Decision/Goal/Authority.antt =====
-- How the goal manager gives and takes authority (astrbot_ex/core/decision/goal_manager.py).
use astrbot_ex.Prelude.{
  ℕ, ◌≤◌, ◌<◌, String, ◌≡◌, ◌≢◌, ◌⊎◌, inl, inr, ap, Bool, true, Option, some, List, arith,
}
use astrbot_ex.Actions.Error.{Result, ok}
use astrbot_ex.Decision.Goal.Defs.{
  Goal, GoalRenew, GoalRecord, Request, active, blocked, Ending, submits, cancels, renews, Response,
  canceled, Manager,
}
use astrbot_ex.Decision.Goal.Ops.{stop, resolve_stop, finish_stopped, reviewed}
use astrbot_ex.Decision.Goal.Requests.{
  CatalogAction, Outside, remember, serve, submit_work, cancel_work, renew_work, check_submit,
  accept, cancel_reason, match_goal,
}
use astrbot_ex.Decision.Goal.Events.{
  Event, submitting, canceling, renewing, stopping, resolving, finishing, blocking, reviewing,
  awaiting, rejecting, expiring, step,
}
use astrbot_ex.Decision.Goal.Invariant.{serve_cases, bind_keeps, check_submit_revision}

-- how the gate moved between two states
record Gate (m m' : Manager) : Type 0 where
  grows : m.gate_epoch ≤ m'.gate_epoch
  revision : m.revision ≤ m'.revision
  blocked : m.phase ≡ blocked → m'.phase ≡ blocked
  no_grant : m'.phase ≡ active → m.phase ≡ active
  revokes : m.phase ≡ active → m'.phase ≢ active → m.gate_epoch < m'.gate_epoch

Gate-refl : (m : Manager) → Gate m m
Gate-refl m = ground arith

serve-Gate :
    (outside : Outside) (session request_id : String) (request : Request)
    (work : Manager → Result (Response × Manager)) (m : Manager)
    → ((r : Response) (m' : Manager) → work m ≡ ok (r, m') → Gate m m')
    → Gate m (serve outside session request_id request work m).1
unfolding remember
serve-Gate outside session request_id request work m kept =
    elim (serve_cases outside session request_id request work m) [
      | inl same ↦ rw same (Gate-refl m)
      | inr (r, m', done, here, unseen, is) ↦
          rw is (unfold remember in ground (arith, kept r m' done))
    ]

stop-Gate :
    (reason : String) (ending : Option Ending) (m : Manager) → Gate m (stop reason ending m).1
unfolding stop
stop-Gate reason ending m = ground arith

accept-Gate :
    (outside : Outside) (catalog : List CatalogAction) (goal : Goal) (now : ℕ) (m : Manager)
    (revision : ℕ)
    → check_submit outside catalog goal m ≡ ok revision
    → Gate m (accept goal revision now m).1
unfolding accept
accept-Gate outside catalog goal now m revision passed =
    ground (arith, check_submit_revision outside catalog goal m revision passed)

-- the methods that neither resolve a stop, nor finish a goal, nor review a block
abbrev IsPlain : Event → Type 0
IsPlain (resolving epoch proven activate now) = ⊥
IsPlain (finishing goal epoch) = ⊥
IsPlain (reviewing epoch) = ⊥
IsPlain _ = Unit

module _ (outside : Outside) (m : Manager) where
  renew_work-Gate :
      (req : GoalRenew) (now later : ℕ) (r : Response) (m' : Manager)
      → renew_work req now later m ≡ ok (r, m')
      → Gate m m'
  unfolding renew_work match_goal
  renew_work-Gate req now later r m' h = ground arith

  plain-Gate : (e : Event) → IsPlain e → Gate m (step outside e m)
  unfolding step
  plain-Gate (submitting catalog goal now) p =
      serve-Gate outside goal.ex_session goal.request_id (submits goal)
        (submit_work outside catalog goal now) m
        (λ r m' h.
          bind_keeps (Gate m) (check_submit outside catalog goal m)
            (λ revision. accept goal revision now m)
            (λ revision passed. accept-Gate outside catalog goal now m revision passed)
            (unfold submit_work in h))
  plain-Gate (canceling req) p =
      serve-Gate outside req.ex_session req.request_id (cancels req) (cancel_work req) m (λ r m' h.
        bind_keeps (Gate m) (match_goal req.goal_id req.goal_revision m)
          (λ goal. (canceled, (stop (cancel_reason req.reason_code) (some Ending.canceled) m).1))
          (λ goal _. stop-Gate (cancel_reason req.reason_code) (some Ending.canceled) m)
          (unfold cancel_work in h))
  plain-Gate (renewing req now later) p =
      serve-Gate outside req.ex_session req.request_id (renews req) (renew_work req now later) m
        (renew_work-Gate req now later)
  plain-Gate (stopping reason ending) p = stop-Gate reason ending m
  plain-Gate (blocking reason) p = ground arith
  plain-Gate (awaiting revision reason) p = ground arith
  plain-Gate (rejecting revision reason goal_id now) p = ground arith
  plain-Gate (expiring now) p = ground arith
  plain-Gate (resolving epoch proven activate now) p = elim p [ ]
  plain-Gate (finishing goal epoch) p = elim p [ ]
  plain-Gate (reviewing epoch) p = elim p [ ]

  -- what a step to `active` from another phase needs
  abbrev pub Granted : Event → Manager → Type 0
  Granted e m' =
      (now : ℕ) × (g : GoalRecord) × (e ≡ resolving m.gate_epoch true true now)
      × (m.pending_replace ≡ some g)
      × (now < g.expires_ns)
      × (m'.active ≡ some g)

  plain-Granted :
      (e : Event)
      → IsPlain e
      → m.phase ≢ active
      → (step outside e m).phase ≡ active
      → Granted e (step outside e m)
  plain-Granted e p n a = absurd (n ((plain-Gate e p).no_grant a))

  resolve_granted :
      (epoch : ℕ) (proven activate : Bool) (now : ℕ)
      → m.phase ≢ active
      → (resolve_stop epoch proven activate now m).1.phase ≡ active
      → (g : GoalRecord) × (epoch ≡ m.gate_epoch)
        × (proven ≡ true)
        × (activate ≡ true)
        × (m.pending_replace ≡ some g)
        × (now < g.expires_ns)
        × ((resolve_stop epoch proven activate now m).1.active ≡ some g)
  unfolding resolve_stop
  resolve_granted epoch proven activate now n a = ground arith

  resolve_epoch :
      (epoch : ℕ) (proven activate : Bool) (now : ℕ)
      → ((resolve_stop epoch proven activate now m).1.gate_epoch ≡ m.gate_epoch)
        × ((resolve_stop epoch proven activate now m).1.revision ≡ m.revision)
        × (m.phase ≡ active
            → (resolve_stop epoch proven activate now m).1.phase ≢ active
            → epoch ≡ m.gate_epoch)
  unfolding resolve_stop
  resolve_epoch epoch proven activate now = ground arith

  finish_epoch :
      (goal : GoalRecord) (epoch : ℕ)
      → ((finish_stopped goal epoch m).1.gate_epoch ≡ m.gate_epoch)
        × ((finish_stopped goal epoch m).1.revision ≡ m.revision)
        × (m.phase ≡ active → (finish_stopped goal epoch m).1.phase ≢ active → epoch ≡ m.gate_epoch)
  unfolding finish_stopped
  finish_epoch goal epoch = ground arith

  review_epoch :
      (epoch : ℕ)
      → (m.gate_epoch ≤ (reviewed epoch m).1.gate_epoch)
        × (m.revision ≤ (reviewed epoch m).1.revision)
        × (m.phase ≡ active
            → (reviewed epoch m).1.phase ≢ active
            → m.gate_epoch < (reviewed epoch m).1.gate_epoch)
  unfolding reviewed
  review_epoch epoch = ground arith

  -- The phase becomes `active` only by resolving a stop that is proven, of the current epoch and
  -- asked to activate, while a replacement waits whose lease has not run out; that replacement is
  -- then the active goal. No request of a client and no other method gives authority.
  pub authority_needs_proof :
      (e : Event)
      → m.phase ≢ active
      → (step outside e m).phase ≡ active
      → Granted e (step outside e m)
  authority_needs_proof (resolving epoch proven activate now) n a =
      let (g, at, is_proven, wanted, waiting, live, given) =
        resolve_granted epoch proven activate now n (unfold step in a) in
      (now, g, cc (at, is_proven, wanted), waiting, live, unfold step in given)
  authority_needs_proof (finishing goal epoch) n a = unfold step in ground arith
  authority_needs_proof (reviewing epoch) n a = unfold step in ground arith
  authority_needs_proof (submitting catalog goal now) n a = plain-Granted _ tt n a
  authority_needs_proof e n a = plain-Granted _ tt n a

  -- A blocked manager stays blocked through every call, until the current epoch is reviewed.
  pub blocked_until_review :
      (e : Event)
      → m.phase ≡ blocked
      → ((step outside e m).phase ≡ blocked) ⊎ (e ≡ reviewing m.gate_epoch)
  blocked_until_review (resolving epoch proven activate now) b = unfold step in ground arith
  blocked_until_review (finishing goal epoch) b = unfold step in ground arith
  blocked_until_review (reviewing epoch) b = unfold step in ground arith
  blocked_until_review e b = inl ((plain-Gate _ tt).blocked b)

  -- The gate's epoch and the revision never fall; and a call that ends the phase `active` either
  -- raises the epoch, so that what was decided under the old one is recognised as stale, or it
  -- resolves a stop of the current epoch or finishes a stopped goal under it.
  pub epoch_grows :
      (e : Event)
      → (m.gate_epoch ≤ (step outside e m).gate_epoch)
        × (m.revision ≤ (step outside e m).revision)
        × (m.phase ≡ active
            → (step outside e m).phase ≢ active
            → (m.gate_epoch < (step outside e m).gate_epoch)
              ⊎ ((proven activate : Bool) × (now : ℕ) × (e
                    ≡ resolving m.gate_epoch proven activate now))
              ⊎ ((goal : GoalRecord) × (e ≡ finishing goal m.gate_epoch)))
  epoch_grows (resolving epoch proven activate now) =
      let (same, revision, at) = resolve_epoch epoch proven activate now in
      unfold step in
      (
        omega arith,
        omega arith,
        λ a n.
            inr (inl (proven, activate, now, ap (λ k. resolving k proven activate now) (at a n))),
      )
  epoch_grows (finishing goal epoch) =
      let (same, revision, at) = finish_epoch goal epoch in
      unfold step in
      (omega arith, omega arith, λ a n. inr (inr (goal, ap (finishing goal) (at a n))))
  epoch_grows (reviewing epoch) =
      let (grows, revision, revokes) = review_epoch epoch in
      unfold step in (grows, revision, λ a n. inl (revokes a n))
  epoch_grows e = let g = plain-Gate _ tt in (g.grows, g.revision, λ a n. inl (g.revokes a n))
