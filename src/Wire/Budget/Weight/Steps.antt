-- ===== src/Wire/Budget/Weight/Steps.antt =====
-- The rounds of the loop, each against the recursion on the value.
use astrbot_ex.Prelude.{
  ℕ, zero, suc, ◌+◌, ◌-◌, ◌≡◌, refl, sym, ◌∙◌, ap, true, Option, none, some, List, ◌∷◌, arith,
  if◌then◌else◌, Bool-cases, inl, inr,
}
use astrbot_ex.Actions.Error.{ErrorCode, value_budget_exceeded, invalid_type, schema_depth_exceeded}
use astrbot_ex.Wire.Json.{Json, Members, ScalarSize, size, too_big, not_json, scalar_json_size}
use astrbot_ex.Wire.Budget.{
  max_validation_bytes, Frame, visit, leave, members, Outcome, going, refused, is_over, is_crowded,
  is_deep, unless_over, open_member, add_scalar, enter, step, Verdict, rejected, run, rounds,
}
use astrbot_ex.Wire.Budget.Weight.{
  Weighed, weight, over, then_weigh, add_bytes, weigh_scalar, weigh_text, count_node, weigh_value,
  weigh_members, weigh,
}

-- the loop goes on with the stack after a weight
abbrev pub resume : ℕ → List Frame → Weighed → Verdict
resume k stack (weight nodes bytes) = run k (going stack nodes bytes)
resume k stack (over code) = rejected code

pub run_refused : (k : ℕ) (code : ErrorCode) → run k (refused code) ≡ rejected code
unfolding run
run_refused zero code = refl
run_refused (suc k) code = refl

pub run_step :
    (k nodes bytes : ℕ) (f : Frame) (stack : List Frame) {m : ℕ}
    → m ≡ k + 1
    → run m (going (f ∷ stack) nodes bytes) ≡ run k (step f stack nodes bytes)
unfolding run
run_step k nodes bytes f stack {m = zero} e = absurd (omega arith)
run_step k nodes bytes f stack {m = suc m} e =
    ap (λ j. run j (step f stack nodes bytes)) (omega arith)

-- what stands behind a test for the bytes
gated :
    (k j bytes : ℕ) (o : Outcome) (w : Weighed) (stack : List Frame)
    → run k o ≡ resume j stack w
    → run k (unless_over bytes o)
      ≡ resume j stack (if is_over bytes then over value_budget_exceeded else w)
gated k j bytes o w stack h = elim (Bool-cases (is_over bytes)) [
  | inl e ↦ rw e (run_refused k value_budget_exceeded)
  | inr e ↦ rw e h
]

-- the same, with more behind it
pub opened :
    (k j nodes bytes : ℕ) (o : Outcome) (f : ℕ → ℕ → Weighed) (stack : List Frame)
    → run k o ≡ resume j stack (f nodes bytes)
    → run k (unless_over bytes o)
      ≡ resume j stack (
          then_weigh
            (if is_over bytes then over value_budget_exceeded else weight nodes bytes)
            (λ n b. f n b))
opened k j nodes bytes o f stack h = elim (Bool-cases (is_over bytes)) [
  | inl e ↦ rw e (run_refused k value_budget_exceeded)
  | inr e ↦ rw e h
]

-- what stands behind the two tests for a node
pub counted :
    (k j depth nodes bytes : ℕ) (o : Outcome) (f : ℕ → ℕ → Weighed) (stack : List Frame)
    → run k o ≡ resume j stack (f (nodes + 1) bytes)
    → run k (
        if is_crowded (nodes + 1)
        then refused value_budget_exceeded
        else if is_deep depth
        then refused schema_depth_exceeded
        else o)
      ≡ resume j stack (then_weigh (count_node depth nodes bytes) (λ n b. f n b))
counted k j depth nodes bytes o f stack h = elim (Bool-cases (is_crowded (nodes + 1))) [
  | inl e ↦ rw e (run_refused k value_budget_exceeded)
  | inr e ↦ elim (Bool-cases (is_deep depth)) [
    | inl e' ↦ rw (e, e') (run_refused k schema_depth_exceeded)
    | inr e' ↦ rw (e, e') h
  ]
]

pub scalar_runs :
    (z : ScalarSize) (k nodes bytes : ℕ) (stack : List Frame)
    → run k (add_scalar z stack nodes bytes) ≡ resume k stack (weigh_scalar z nodes bytes)
scalar_runs too_big k nodes bytes stack = run_refused k value_budget_exceeded
scalar_runs not_json k nodes bytes stack = run_refused k invalid_type
scalar_runs (size n) k nodes bytes stack =
    gated k k (bytes + n) (going stack nodes (bytes + n)) (weight nodes (bytes + n)) stack refl

-- the frame that a weight is handed to
pub chained :
    (w : Weighed) (f : Frame) (stack : List Frame) (k j : ℕ) (g : ℕ → ℕ → Weighed)
    → ((n b : ℕ) → run k (going (f ∷ stack) n b) ≡ resume j stack (g n b))
    → resume k (f ∷ stack) w ≡ resume j stack (then_weigh w (λ n b. g n b))
chained (weight n b) f stack k j g h = h n b
chained (over code) f stack k j g h = refl

pub leave_runs :
    (k n b : ℕ) (stack : List Frame)
    → run (k + 1) (going (leave ∷ stack) n b) ≡ resume k stack (add_bytes 1 n b)
unfolding step
leave_runs k n b stack =
    run_step k n b leave stack refl
    ∙ gated k k (b + 1) (going stack n (b + 1)) (weight n (b + 1)) stack refl

abbrev pub EnterRuns : Json → Type 0
EnterRuns v =
    (k depth n b m : ℕ) (stack : List Frame)
    → m ≡ rounds v + k
    → run m (going (visit v depth ∷ stack) n b) ≡ resume k stack (weigh v depth n b)

pub scalar_enters :
    (v : Json)
    → rounds v ≡ 1
    → ((depth n b : ℕ) (stack : List Frame)
        → enter v depth stack n b
          ≡ add_scalar (scalar_json_size (max_validation_bytes - b) v) stack n b)
    → ((depth n b : ℕ)
        → weigh_value v depth n b
          ≡ weigh_scalar (scalar_json_size (max_validation_bytes - b) v) n b)
    → EnterRuns v
unfolding step
scalar_enters v one enters weighs k depth n b m stack e =
    run_step k n b (visit v depth) stack (omega (arith, one, e))
    ∙ counted k k depth n b (enter v depth stack (n + 1) b) (λ n' b'. weigh_value v depth n' b')
        stack
        (ap (run k) (enters depth (n + 1) b stack)
          ∙ scalar_runs (scalar_json_size (max_validation_bytes - b) v) k (n + 1) b stack
          ∙ ap (resume k stack) (sym (weighs depth (n + 1) b)))

-- a key, and the value behind it
pub keyed :
    (z : Option ℕ) (k j : ℕ) (v : Json) (rest : Members) (depth n b : ℕ) (stack : List Frame)
    → ((n' b' : ℕ)
        → run k (going (visit v depth ∷ members true rest depth ∷ stack) n' b')
          ≡ resume j stack
              (then_weigh (weigh v depth n' b') (λ n'' b''. weigh_members true rest depth n'' b'')))
    → run k (open_member z v rest depth stack n b)
      ≡ resume j stack (
          then_weigh (weigh_text z n b) (λ n' b'.
            then_weigh (weigh v depth n' b') (λ n'' b''. weigh_members true rest depth n'' b'')))
keyed none k j v rest depth n b stack h = run_refused k value_budget_exceeded
keyed (some chars) k j v rest depth n b stack h = elim (Bool-cases (is_over (b + chars + 1))) [
  | inl e ↦ rw e (run_refused k value_budget_exceeded)
  | inr e ↦ rw e (h n (b + chars + 1))
]
