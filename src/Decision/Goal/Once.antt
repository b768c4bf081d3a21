-- ===== src/Decision/Goal/Once.antt =====
-- What the goal manager does at most once: a request's work, the completion of a goal, and what a
-- lease can no longer do (astrbot_ex/core/decision/goal_manager.py).
use astrbot_ex.Prelude.{
  ℕ, String, ◌≡◌, ◌≢◌, inl, inr, refl, Option, none, some, List, [], ◌∷◌, arith, =?_refl,
}
use astrbot_ex.Prelude.Table.{find, find-put}
use astrbot_ex.Actions.Error.{Result, ok, raise, contract, duplicate_request_id_conflict}
use astrbot_ex.Actions.Checks.{check_ex_session}
use astrbot_ex.Decision.Goal.Defs.{
  Goal, GoalCancel, GoalRenew, Request, submits, cancels, renews, Response, canceled, Manager,
  Ending,
}
use astrbot_ex.Decision.Goal.Ops.{stop}
use astrbot_ex.Decision.Goal.Requests.{
  CatalogAction, Outside, precheck, replay, remember, finish_work, serve, submit_work, cancel_work,
  renew_work, check_submit, accept, cancel_reason, match_goal, submit, cancel, renew,
}
use astrbot_ex.Decision.Goal.Events.{
  Event, submitting, canceling, renewing, stopping, resolving, finishing, blocking, reviewing,
  awaiting, rejecting, expiring, step, run,
}
use astrbot_ex.Decision.Goal.Invariant.{serve_cases, bind_keeps}

-- the session, and the request's digest and response
abbrev Known : Manager → String → String → String → Response → Type 0
Known m session k digest r = (m.ex_session ≡ session) × (find k m.requests ≡ some (digest, r))

-- the session and the memory of requests, which no method but `_remember` writes
abbrev SameMemory : Manager → Manager → Type 0
SameMemory m m' = (m'.ex_session ≡ m.ex_session) × (m'.requests ≡ m.requests)

remember_other :
    (k digest j s d : String) (r q : Response) (m m' : Manager)
    → find k m.requests ≡ none
    → SameMemory m m'
    → Known m s j d q
    → Known (remember k digest r m') s j d q
unfolding remember
remember_other k digest j s d r q m m' unseen kept known =
    ground (arith, find-put k j (digest, r) m'.requests)

remember_this :
    (k digest : String) (r : Response) (m : Manager)
    → find k (remember k digest r m).requests ≡ some (digest, r)
unfolding remember
remember_this k digest r m = ground (arith, find-put k k (digest, r) m.requests, =?_refl k)

module _ (outside : Outside) (session k : String) (request : Request)
    (work : Manager → Result (Response × Manager)) (m : Manager)
    (kept : (r : Response) (m' : Manager) → work m ≡ ok (r, m') → SameMemory m m') where
  -- What was known stays known.
  serve_keeps :
      (j s d : String) (r : Response)
      → Known m s j d r
      → Known (serve outside session k request work m).1 s j d r
  serve_keeps j s d r known = elim (serve_cases outside session k request work m) [
    | inl same ↦ rw same known
    | inr (q, m', done, here, unseen, is) ↦
        rw is
          (remember_other k (outside.digest request) j s d q r m m' unseen (kept q m' done) known)
  ]

  finish-Known :
      (r : Response) (n : Manager) (w : Result (Response × Manager))
      → work m ≡ w
      → m.ex_session ≡ session
      → finish_work outside k request w m ≡ (ok r, n)
      → Known n session k (outside.digest request) r
  unfolding finish_work
  finish-Known r n (raise e) is here h = ground arith
  finish-Known r n (ok (q, m')) is here h =
      ground (arith, kept q m' is, remember_this k (outside.digest request) q m')

  -- A served request is known afterwards.
  serve-Known :
      (r : Response) (m' : Manager)
      → serve outside session k request work m ≡ (ok r, m')
      → Known m' session k (outside.digest request) r
  unfolding serve precheck replay check_ex_session
  serve-Known r m' h = ground (arith, finish-Known r m' (work m) refl)

-- A known request is answered from the memory, whatever its work would do now.
serve_replays :
    (outside : Outside) (session k : String) (request : Request)
    (work : Manager → Result (Response × Manager)) (m : Manager) (digest : String) (r : Response)
    → Known m session k digest r
    → (outside.digest request ≡ digest → serve outside session k request work m ≡ (ok r, m))
      × (outside.digest request ≢ digest
          → serve outside session k request work m
            ≡ (raise (contract duplicate_request_id_conflict), m))
unfolding serve precheck replay check_ex_session
serve_replays outside session k request work m digest r known = ground arith

stop_memory :
    (reason : String) (ending : Option Ending) (m : Manager) → SameMemory m (stop reason ending m).1
unfolding stop
stop_memory reason ending m = ground arith

module _ (outside : Outside) (m : Manager) where
  submit_memory :
      (catalog : List CatalogAction) (goal : Goal) (now : ℕ) (r : Response) (m' : Manager)
      → submit_work outside catalog goal now m ≡ ok (r, m')
      → SameMemory m m'
  unfolding submit_work
  submit_memory catalog goal now r m' h =
      bind_keeps (SameMemory m) (check_submit outside catalog goal m)
        (λ revision. accept goal revision now m) (λ revision passed. unfold accept in ground arith)
        h

  cancel_memory :
      (req : GoalCancel) (r : Response) (m' : Manager)
      → cancel_work req m ≡ ok (r, m')
      → SameMemory m m'
  unfolding cancel_work
  cancel_memory req r m' h =
      bind_keeps (SameMemory m) (match_goal req.goal_id req.goal_revision m)
        (λ goal. (canceled, (stop (cancel_reason req.reason_code) (some Ending.canceled) m).1))
        (λ goal _. stop_memory (cancel_reason req.reason_code) (some Ending.canceled) m) h

  renew_memory :
      (req : GoalRenew) (now later : ℕ) (r : Response) (m' : Manager)
      → renew_work req now later m ≡ ok (r, m')
      → SameMemory m m'
  unfolding renew_work match_goal
  renew_memory req now later r m' h = ground arith

  step_keeps :
      (e : Event) (s k d : String) (r : Response)
      → Known m s k d r
      → Known (step outside e m) s k d r
  unfolding step
  step_keeps (submitting catalog goal now) s k d r known =
      serve_keeps outside goal.ex_session goal.request_id (submits goal)
        (submit_work outside catalog goal now) m (submit_memory catalog goal now) k s d r known
  step_keeps (canceling req) s k d r known =
      serve_keeps outside req.ex_session req.request_id (cancels req) (cancel_work req) m
        (cancel_memory req) k s d r known
  step_keeps (renewing req now later) s k d r known =
      serve_keeps outside req.ex_session req.request_id (renews req) (renew_work req now later) m
        (renew_memory req now later) k s d r known
  step_keeps (stopping reason ending) s k d r known = ground (arith, stop_memory reason ending m)
  step_keeps (resolving epoch proven activate now) s k d r known = ground arith
  step_keeps (finishing goal epoch) s k d r known = ground arith
  step_keeps (blocking reason) s k d r known = ground arith
  step_keeps (reviewing epoch) s k d r known = ground arith
  step_keeps (awaiting revision reason) s k d r known = ground arith
  step_keeps (rejecting revision reason goal_id now) s k d r known = ground arith
  step_keeps (expiring now) s k d r known = ground arith

run_keeps :
    (outside : Outside) (es : List Event) (m : Manager) (s k d : String) (r : Response)
    → Known m s k d r
    → Known (run outside es m) s k d r
unfolding run
run_keeps outside [] m s k d r known = known
run_keeps outside (e ∷ es) m s k d r known =
    run_keeps outside es (step outside e m) s k d r (step_keeps outside m e s k d r known)

abbrev pub session_of : Request → String
session_of (submits goal) = goal.ex_session
session_of (cancels req) = req.ex_session
session_of (renews req) = req.ex_session

abbrev pub id_of : Request → String
id_of (submits goal) = goal.request_id
id_of (cancels req) = req.request_id
id_of (renews req) = req.request_id

-- the method for a request
unfoldable pub perform :
    Outside → List CatalogAction → ℕ → ℕ → Request → Manager → Result Response × Manager
unfolding submit cancel renew
perform outside catalog now later (submits goal) m = submit outside catalog goal now m
perform outside catalog now later (cancels req) m = cancel outside req m
perform outside catalog now later (renews req) m = renew outside req now later m

perform-Known :
    (outside : Outside) (catalog : List CatalogAction) (now later : ℕ) (request : Request)
    (r : Response) (m m' : Manager)
    → perform outside catalog now later request m ≡ (ok r, m')
    → Known m' (session_of request) (id_of request) (outside.digest request) r
unfolding perform
perform-Known outside catalog now later (submits goal) r m m' =
    serve-Known outside goal.ex_session goal.request_id (submits goal)
      (submit_work outside catalog goal now) m (submit_memory outside m catalog goal now) r m'
perform-Known outside catalog now later (cancels req) r m m' =
    serve-Known outside req.ex_session req.request_id (cancels req) (cancel_work req) m
      (cancel_memory outside m req) r m'
perform-Known outside catalog now later (renews req) r m m' =
    serve-Known outside req.ex_session req.request_id (renews req) (renew_work req now later) m
      (renew_memory outside m req now later) r m'

abbrev pub Replayed :
    Outside → List CatalogAction → ℕ → ℕ → String → Response → Request → Manager → Type 0
Replayed outside catalog now later digest r again m =
    (outside.digest again ≡ digest → perform outside catalog now later again m ≡ (ok r, m))
    × (outside.digest again ≢ digest
        → perform outside catalog now later again m
          ≡ (raise (contract duplicate_request_id_conflict), m))

Known-Replayed :
    (outside : Outside) (catalog : List CatalogAction) (now later : ℕ) (digest : String)
    (r : Response) (again : Request) (m : Manager)
    → Known m (session_of again) (id_of again) digest r
    → Replayed outside catalog now later digest r again m
unfolding perform
Known-Replayed outside catalog now later digest r (submits goal) m =
    serve_replays outside goal.ex_session goal.request_id (submits goal)
      (submit_work outside catalog goal now) m digest r
Known-Replayed outside catalog now later digest r (cancels req) m =
    serve_replays outside req.ex_session req.request_id (cancels req) (cancel_work req) m digest r
Known-Replayed outside catalog now later digest r (renews req) m =
    serve_replays outside req.ex_session req.request_id (renews req) (renew_work req now later) m
      digest r

-- Once a request was answered, and after any calls of any methods, a request of the same session
-- and id is answered from the memory and changes nothing: with the same response if its digest is
-- the same, whatever the catalogue and the clock say by then, and with a conflict if it is not.
pub answered_once :
    (outside : Outside) (catalog catalog_then : List CatalogAction) (now later at after : ℕ)
    (request again : Request) (r : Response) (m m' : Manager) (es : List Event)
    → perform outside catalog now later request m ≡ (ok r, m')
    → session_of again ≡ session_of request
    → id_of again ≡ id_of request
    → Replayed outside catalog_then at after (outside.digest request) r again (run outside es m')
answered_once outside catalog catalog_then now later at after request again r m m' es served here
      same =
    Known-Replayed outside catalog_then at after (outside.digest request) r again
      (run outside es m')
      (rw (here, same)
        (run_keeps outside es m' (session_of request) (id_of request) (outside.digest request) r
          (perform-Known outside catalog now later request r m m' served)))
