-- ===== src/Actions/Ledger/Writer/Fair.antt =====
-- The invariant of the writer's queue, under the calls of `_submit` and `close`
-- (astrbot_ex/core/actions/ledger.py).
use astrbot_ex.Prelude.{
  ℕ, suc, ◌≤◌, ◌≡◌, ◌⊎◌, inl, inr, refl, sym, ap, ◌∙◌, Bool, true, false, List, [], ◌∷◌, ◌++◌,
  arith, length, length-append,
}
use astrbot_ex.Actions.Ledger.Writer.{
  Item, job, stop, Stage, operating, faulting, undoing, aborting, failing, ended, Fate, lost,
  Writer, is_full, submit, close, cancel,
}

-- the futures that wait in the queue
abbrev pub waiting : List Item → List ℕ
waiting [] = []
waiting (job n ∷ q) = n ∷ waiting q
waiting (stop ∷ q) = waiting q

-- the stop marker stands only at the end
abbrev pub StopLast : List Item → Type 0
StopLast [] = Unit
StopLast (job n ∷ q) = StopLast q
StopLast (stop ∷ q) = q ≡ []

abbrev pub NoStop : List Item → Type 0
NoStop [] = Unit
NoStop (job n ∷ q) = NoStop q
NoStop (stop ∷ q) = ⊥

abbrev pub taken : List (ℕ × Fate) → List ℕ
taken [] = []
taken ((n, fate) ∷ gone) = n ∷ taken gone

-- the future of the operation that the thread is at
abbrev pub in_work : Stage → List ℕ
in_work (operating n) = n ∷ []
in_work (faulting n) = n ∷ []
in_work (undoing n) = n ∷ []
in_work _ = []

abbrev pub lost_count : List (ℕ × Fate) → ℕ
lost_count [] = 0
lost_count ((n, lost) ∷ gone) = suc (lost_count gone)
lost_count ((n, _) ∷ gone) = lost_count gone

-- how many may be lost
abbrev pub may_lose : Stage → Bool → ℕ
may_lose aborting fault = 1
may_lose failing fault = 1
may_lose ended true = 1
may_lose _ fault = 0

-- what the thread is done with or at
abbrev pub started : Writer → List ℕ
started w = taken w.gone ++ in_work w.stage

pub record IsFair (w : Writer) : Type 0 where
  pub ordered : w.accepted ≡ started w ++ waiting w.queue
  pub bounded : length w.queue ≤ w.maxsize
  pub marker : StopLast w.queue
  pub before_close : w.closed ≡ false → NoStop w.queue
  pub faulted : w.stage ≡ failing → w.fault ≡ true
  pub losses : lost_count w.gone ≤ may_lose w.stage w.fault
  pub finished : w.stage ≡ ended → (waiting w.queue ≡ []) × ((w.fault ≡ true) ⊎ (w.closed ≡ true))

pub append_assoc : (xs ys zs : List ℕ) → (xs ++ ys) ++ zs ≡ xs ++ (ys ++ zs)
append_assoc [] ys zs = refl
append_assoc (x ∷ xs) ys zs = ap (λ l. x ∷ l) (append_assoc xs ys zs)

waiting-job : (n : ℕ) (q : List Item) → waiting (q ++ job n ∷ []) ≡ waiting q ++ n ∷ []
waiting-job n [] = refl
waiting-job n (job m ∷ q) = ap (λ l. m ∷ l) (waiting-job n q)
waiting-job n (stop ∷ q) = waiting-job n q

waiting-stop : (q : List Item) → waiting (q ++ stop ∷ []) ≡ waiting q
waiting-stop [] = refl
waiting-stop (job m ∷ q) = ap (λ l. m ∷ l) (waiting-stop q)
waiting-stop (stop ∷ q) = waiting-stop q

NoStop-job : (n : ℕ) (q : List Item) → NoStop q → NoStop (q ++ job n ∷ [])
NoStop-job n [] h = tt
NoStop-job n (job m ∷ q) h = NoStop-job n q h
NoStop-job n (stop ∷ q) h = elim h [ ]

NoStop-StopLast : (q : List Item) → NoStop q → StopLast q
NoStop-StopLast [] h = tt
NoStop-StopLast (job m ∷ q) h = NoStop-StopLast q h
NoStop-StopLast (stop ∷ q) h = elim h [ ]

StopLast-stop : (q : List Item) → NoStop q → StopLast (q ++ stop ∷ [])
StopLast-stop [] h = refl
StopLast-stop (job m ∷ q) h = StopLast-stop q h
StopLast-stop (stop ∷ q) h = elim h [ ]

queued-IsFair :
    (w : Writer)
    → IsFair w
    → w.fault ≡ false
    → w.closed ≡ false
    → is_full w ≡ false
    → IsFair (record w {
      queue = w.queue ++ job (length w.accepted) ∷ [];
      accepted = w.accepted ++ length w.accepted ∷ [];
    })
queued-IsFair w v f c room =
    let none_yet = v.before_close c in
    record {
      ordered =
          ap (λ l. l ++ length w.accepted ∷ []) v.ordered
          ∙ append_assoc (started w) (waiting w.queue) (length w.accepted ∷ [])
          ∙ ap (λ l. started w ++ l) (sym (waiting-job (length w.accepted) w.queue));
      bounded = ground (arith, length-append w.queue (job (length w.accepted) ∷ []), room);
      marker =
          NoStop-StopLast (w.queue ++ job (length w.accepted) ∷ [])
            (NoStop-job (length w.accepted) w.queue none_yet);
      before_close = λ _. NoStop-job (length w.accepted) w.queue none_yet;
      faulted = v.faulted;
      losses = v.losses;
      finished = λ e. absurd (not_over (v.finished e).1);
    }
  where
    not_over : (w.fault ≡ true) ⊎ (w.closed ≡ true) → ⊥
    not_over h = ground arith

closed-IsFair :
    (w : Writer)
    → IsFair w
    → w.closed ≡ false
    → is_full w ≡ false
    → IsFair (record w { admission_blocked = true; closed = true; queue = w.queue ++ stop ∷ [] })
closed-IsFair w v c room = record {
  ordered = v.ordered ∙ ap (λ l. started w ++ l) (sym (waiting-stop w.queue));
  bounded = ground (arith, length-append w.queue (stop ∷ []), room);
  marker = StopLast-stop w.queue (v.before_close c);
  before_close = λ e. cc;
  faulted = v.faulted;
  losses = v.losses;
  finished = λ e. (waiting-stop w.queue ∙ (v.finished e).0, inr refl);
}

blocked-IsFair : (w : Writer) → IsFair w → IsFair (record w { admission_blocked = true })
blocked-IsFair w v = record {
  ordered = v.ordered;
  bounded = v.bounded;
  marker = v.marker;
  before_close = v.before_close;
  faulted = v.faulted;
  losses = v.losses;
  finished = v.finished;
}

abbrev queued : Writer → Writer
queued w = record w {
  queue = w.queue ++ job (length w.accepted) ∷ [];
  accepted = w.accepted ++ length w.accepted ∷ [];
}

abbrev marked : Writer → Writer
marked w = record w { admission_blocked = true; closed = true; queue = w.queue ++ stop ∷ [] }

abbrev blocked : Writer → Writer
blocked w = record w { admission_blocked = true }

submit_cases :
    (admission : Bool) (w : Writer)
    → ((submit admission w).1 ≡ w)
      ⊎ ((submit admission w).1 ≡ blocked w)
      ⊎ ((w.fault ≡ false)
          × (w.closed ≡ false)
          × (is_full w ≡ false)
          × ((submit admission w).1 ≡ queued w))
unfolding submit
submit_cases admission w = ground arith

close_cases :
    (w : Writer)
    → ((close w).1 ≡ blocked w)
      ⊎ ((w.closed ≡ false) × (is_full w ≡ false) × ((close w).1 ≡ marked w))
unfolding close
close_cases w = ground arith

pub submit-IsFair : (admission : Bool) (w : Writer) → IsFair w → IsFair (submit admission w).1
submit-IsFair admission w v = elim (submit_cases admission w) [
  | inl same ↦ rw same v
  | inr (inl full) ↦ rw full (blocked-IsFair w v)
  | inr (inr (f, c, room, is)) ↦ rw is (queued-IsFair w v f c room)
]

pub close-IsFair : (w : Writer) → IsFair w → IsFair (close w).1
close-IsFair w v = elim (close_cases w) [
  | inl full ↦ rw full (blocked-IsFair w v)
  | inr (c, room, is) ↦ rw is (closed-IsFair w v c room)
]

cancel_cases :
    (n : ℕ) (w : Writer)
    → (cancel n w ≡ w) ⊎ (cancel n w ≡ record w { called_off = n ∷ w.called_off })
unfolding cancel
cancel_cases n w = ground arith

called_off-IsFair :
    (n : ℕ) (w : Writer) → IsFair w → IsFair (record w { called_off = n ∷ w.called_off })
called_off-IsFair n w v = record {
  ordered = v.ordered;
  bounded = v.bounded;
  marker = v.marker;
  before_close = v.before_close;
  faulted = v.faulted;
  losses = v.losses;
  finished = v.finished;
}

pub cancel-IsFair : (n : ℕ) (w : Writer) → IsFair w → IsFair (cancel n w)
cancel-IsFair n w v = elim (cancel_cases n w) [
  | inl same ↦ rw same v
  | inr off ↦ rw off (called_off-IsFair n w v)
]
