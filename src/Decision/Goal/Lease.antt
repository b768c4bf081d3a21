-- ===== src/Decision/Goal/Lease.antt =====
-- What ends a goal's authority, and what cannot bring it back: `finish_stopped`, `renew` and `expire`
-- of astrbot_ex/core/decision/goal_manager.py.
use astrbot_ex.Prelude.{
  ℕ, ◌+◌, ◌*◌, ◌≤◌, ◌<◌, ◌≡◌, ◌≢◌, ◌⊎◌, inl, inr, refl, ap, ◌∙◌, true, false, Option, none, some,
  String, arith,
}
use astrbot_ex.Prelude.Table.{find}
use astrbot_ex.Actions.Error.{Result, ok, raise, ok-injective}
use astrbot_ex.Actions.Checks.{check_ex_session}
use astrbot_ex.Decision.Goal.Defs.{
  GoalRenew, GoalRecord, Request, renews, idle, active, blocked, stopping, Response, renewed,
  Manager,
}
use astrbot_ex.Decision.Goal.Ops.{or_else, finish_stopped, expire}
use astrbot_ex.Decision.Goal.Requests.{
  Outside, renew_work, match_goal, serve, precheck, replay, finish_work, remember, renew,
}
use astrbot_ex.Decision.Goal.Invariant.{IsValid}

-- A goal's completion is given once: after it, no goal is finished, under any epoch, until the
-- state changes, and the manager is idle without a goal.
pub finished_once :
    (goal other : GoalRecord) (epoch later : ℕ) (m : Manager)
    → (finish_stopped goal epoch m).0 ≡ true
    → ((finish_stopped goal epoch m).1.phase ≡ idle)
      × ((finish_stopped goal epoch m).1.active ≡ none)
      × (finish_stopped other later (finish_stopped goal epoch m).1
          ≡ (false, (finish_stopped goal epoch m).1))
unfolding finish_stopped
finished_once goal other epoch later m done = ground arith

abbrev renewed_until : GoalRecord → ℕ → Manager → Manager
renewed_until g expires_ns m = record m { active = some (record g { expires_ns = expires_ns }) }

-- the work of a renewal that is not a replay
renew_work_live :
    (req : GoalRenew) (now later : ℕ) (m m' : Manager) (r : Response)
    → IsValid m
    → renew_work req now later m ≡ ok (r, m')
    → (g : GoalRecord) × (m.active ≡ some g)
      × (m.phase ≡ active)
      × (now < g.expires_ns)
      × (g.revision ≡ req.goal_revision)
      × (g.payload.goal_id ≡ req.goal_id)
      × (r ≡ renewed g.revision)
      × (m' ≡ renewed_until g (later + req.lease_ms * 1000000) m)
unfolding renew_work match_goal
renew_work_live req now later m m' r v h = ground arith

-- the checks before the work: they find the answer, or that the request is not known
precheck_cases :
    (outside : Outside) (session id : String) (request : Request) (m : Manager)
    (found : Option Response)
    → precheck outside session id request m ≡ ok found
    → (session ≡ m.ex_session)
      × (((r : Response) × (found ≡ some r)
            × (find id m.requests ≡ some (outside.digest request, r)))
          ⊎ ((found ≡ none) × (find id m.requests ≡ none)))
unfolding precheck replay check_ex_session
precheck_cases outside session id request m found h = grind arith

finish_cases :
    (outside : Outside) (id : String) (request : Request) (worked : Result (Response × Manager))
    (m : Manager) (r : Response)
    → (finish_work outside id request worked m).0 ≡ ok r
    → (m' : Manager) × (worked ≡ ok (r, m'))
      × ((finish_work outside id request worked m).1 ≡ remember id (outside.digest request) r m')
unfolding finish_work
finish_cases outside id request (raise e) m r h = absurd (cc)
finish_cases outside id request (ok (s, m')) m r h =
    let same : s ≡ r = ok-injective h in
    (m', ap (λ x. ok (x, m')) same, ap (λ x. remember id (outside.digest request) x m') same)

-- `serve` behind its checks
abbrev served :
    Outside
    → String
    → Request
    → Result (Response × Manager)
    → Manager
    → Result (Option Response)
    → Result Response × Manager
served outside id request worked m (raise e) = (raise e, m)
served outside id request worked m (ok (some response)) = (ok response, m)
served outside id request worked m (ok none) = finish_work outside id request worked m

serve-served :
    (outside : Outside) (session id : String) (request : Request)
    (work : Manager → Result (Response × Manager)) (m : Manager)
    → serve outside session id request work m
      ≡ served outside id request (work m) m (precheck outside session id request m)
unfolding serve
serve-served outside session id request work m = each_answer (precheck outside session id request m)
  where
    each_answer :
        (x : Result (Option Response))
        → elim x as (λ x. Result Response × Manager) [
          | raise e ↦ (raise e, m)
          | ok (some response) ↦ (ok response, m)
          | ok none ↦ finish_work outside id request (work m) m
        ]
          ≡ served outside id request (work m) m x
    each_answer (raise e) = refl
    each_answer (ok (some response)) = refl
    each_answer (ok none) = refl

served_cases :
    (outside : Outside) (session id : String) (request : Request)
    (worked : Result (Response × Manager)) (m : Manager) (r : Response)
    (x : Result (Option Response))
    → precheck outside session id request m ≡ x
    → (served outside id request worked m x).0 ≡ ok r
    → (session ≡ m.ex_session)
      × (((find id m.requests ≡ some (outside.digest request, r))
            × ((served outside id request worked m x).1 ≡ m))
          ⊎ ((find id m.requests ≡ none)
              × ((m' : Manager) × (worked ≡ ok (r, m'))
                  × ((served outside id request worked m x).1
                      ≡ remember id (outside.digest request) r m'))))
served_cases outside session id request worked m r (raise e) is h = absurd (cc)
served_cases outside session id request worked m r (ok (some response)) is h =
    let (s, known) = precheck_cases outside session id request m (some response) is in
    (s, inl (ground (arith, known, h), refl))
served_cases outside session id request worked m r (ok none) is h =
    let (s, known) = precheck_cases outside session id request m none is in
    (s, inr (ground (arith, known), finish_cases outside id request worked m r h))

-- A request that is answered: from the memory, or by its work.
serve_cases :
    (outside : Outside) (session id : String) (request : Request)
    (work : Manager → Result (Response × Manager)) (m : Manager) (r : Response)
    → (serve outside session id request work m).0 ≡ ok r
    → (session ≡ m.ex_session)
      × (((find id m.requests ≡ some (outside.digest request, r))
            × ((serve outside session id request work m).1 ≡ m))
          ⊎ ((find id m.requests ≡ none)
              × ((m' : Manager) × (work m ≡ ok (r, m'))
                  × ((serve outside session id request work m).1
                      ≡ remember id (outside.digest request) r m'))))
unfolding serve
serve_cases outside session id request work m r h =
    let is = serve-served outside session id request work m in
    rw is (
      served_cases outside session id request (work m) m r (precheck outside session id request m)
        refl (rw is at h))

abbrev renewal : Outside → GoalRenew → String
renewal outside req = outside.digest (renews req)

-- the answer that is remembered for the request, and nothing changes
abbrev pub IsReplay : Outside → GoalRenew → Response → Manager → Manager → Type 0
IsReplay outside req r m m' =
    (find req.request_id m.requests ≡ some (renewal outside req, r)) × (m' ≡ m)

-- the goal that the request names is live, and only its lease and the memory change
abbrev pub IsRenewal : Outside → GoalRenew → ℕ → ℕ → Response → Manager → Manager → Type 0
IsRenewal outside req now later r m m' =
    (g : GoalRecord) × (m.active ≡ some g)
    × (m.phase ≡ active)
    × (now < g.expires_ns)
    × (g.revision ≡ req.goal_revision)
    × (g.payload.goal_id ≡ req.goal_id)
    × (r ≡ renewed g.revision)
    × (m'
        ≡ remember req.request_id (renewal outside req) r
            (renewed_until g (later + req.lease_ms * 1000000) m))

-- A renewal that is answered with `ok` in a valid state is of this session. Either it is the answer
-- remembered for the same request, and nothing changes; or its request is not known, the goal that it
-- names is the active one, in phase `active` and before the end of its lease, and then nothing changes
-- but the end of that lease, counted from the second reading of the clock, and the memory, which
-- gets the answer.
pub renewed_live :
    (outside : Outside) (req : GoalRenew) (now later : ℕ) (m : Manager) (r : Response)
    → IsValid m
    → (renew outside req now later m).0 ≡ ok r
    → (req.ex_session ≡ m.ex_session)
      × (IsReplay outside req r m (renew outside req now later m).1
          ⊎ ((find req.request_id m.requests ≡ none)
              × IsRenewal outside req now later r m (renew outside req now later m).1))
unfolding renew
renewed_live outside req now later m r v h =
    let (session, answered) =
      serve_cases outside req.ex_session req.request_id (renews req) (renew_work req now later) m r
        h in
    (
      session,
      elim answered [
        | inl again ↦ inl again
        | inr (fresh, done) ↦
            let (m', worked, is) = done in
            let (g, there, live, early, revision, id, answer, lease) =
              renew_work_live req now later m m' r v worked in
            inr (
              fresh,
              (
                g,
                there,
                live,
                early,
                revision,
                id,
                answer,
                is ∙ ap (remember req.request_id (renewal outside req) r) lease,
              ),
            )
      ],
    )

-- After `expire`, no goal whose lease has run out is in phase `active`: a goal that waits or runs
-- past its lease is stopped, unless the manager is blocked or already stopping.
pub expired_stopped :
    (now : ℕ) (m : Manager) (g : GoalRecord)
    → or_else m.pending_replace m.active ≡ some g
    → g.expires_ns ≤ now
    → m.phase ≢ blocked
    → m.phase ≢ stopping
    → ((expire now m).0 ≡ true)
      × ((expire now m).1.phase ≡ stopping)
      × ((expire now m).1.gate_epoch ≡ m.gate_epoch + 1)
      × ((expire now m).1.pending_replace ≡ none)
      × ((expire now m).1.active ≡ m.active)
unfolding expire
expired_stopped now m g current late not_blocked not_stopping = ground arith
