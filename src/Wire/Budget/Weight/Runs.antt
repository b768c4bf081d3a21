-- ===== src/Wire/Budget/Weight/Runs.antt =====
-- The loop computes the recursion on the value: with as many rounds as the value has it always ends.
use astrbot_ex.Prelude.{
  ℕ, zero, suc, ◌+◌, ◌-◌, ◌≡◌, refl, ◌∙◌, Bool, true, false, none, some, List, [], ◌∷◌, arith,
}
use astrbot_ex.Actions.Error.{invalid_type, non_finite_number}
use astrbot_ex.Wire.Json.{
  Json, Items, Members, null, boolean, integer, real, string, array, object, other, no_items, item,
  no_members, member, string_json_size,
}
use astrbot_ex.Wire.Budget.{
  max_validation_bytes, Frame, visit, leave, items, members, going, refused, comma, step, run,
  rounds, rounds_items, rounds_members, measure_json_budget,
}
use astrbot_ex.Wire.Budget.Weight.{
  Weighed, weight, over, then_weigh, add_bytes, weigh_value, weigh_items, weigh_members, weigh,
  verdict_of,
}
use astrbot_ex.Wire.Budget.Weight.Steps.{
  resume, run_refused, run_step, opened, counted, chained, leave_runs, EnterRuns, scalar_enters,
  keyed,
}

mutual
  unfolding step rounds weigh_value

  visit_runs : (v : Json) → EnterRuns v
  visit_runs null k d n b m s e =
      scalar_enters null refl (λ d n b s. refl) (λ d n b. refl) k d n b m s e
  visit_runs (boolean x) k d n b m s e =
      scalar_enters (boolean x) refl (λ d n b s. refl) (λ d n b. refl) k d n b m s e
  visit_runs (integer x y) k d n b m s e =
      scalar_enters (integer x y) refl (λ d n b s. refl) (λ d n b. refl) k d n b m s e
  visit_runs (real (some r)) k d n b m s e =
      scalar_enters (real (some r)) refl (λ d n b s. refl) (λ d n b. refl) k d n b m s e
  visit_runs (string t) k d n b m s e =
      scalar_enters (string t) refl (λ d n b s. refl) (λ d n b. refl) k d n b m s e
  visit_runs other k d n b m s e =
      scalar_enters other refl (λ d n b s. refl) (λ d n b. refl) k d n b m s e
  visit_runs (real none) k depth n b m stack e =
      run_step k n b (visit (real none) depth) stack (omega (arith, e))
      ∙ counted k k depth n b (refused non_finite_number)
          (λ n' b'. weigh_value (real none) depth n' b') stack (run_refused k non_finite_number)
  visit_runs (array xs) k depth n b m stack e =
      run_step (rounds_items xs + (k + 1)) n b (visit (array xs) depth) stack (omega (arith, e))
      ∙ counted (rounds_items xs + (k + 1)) k depth n b _
          (λ n' b'. weigh_value (array xs) depth n' b') stack
          (opened (rounds_items xs + (k + 1)) k (n + 1) (b + 1) _
            (λ n' b'.
              then_weigh (weigh_items false xs (depth + 1) n' b') (λ n'' b''. add_bytes 1 n'' b''))
            stack
            (items_runs xs false (k + 1) (depth + 1) (n + 1) (b + 1) _ (leave ∷ stack) refl
              ∙ chained (weigh_items false xs (depth + 1) (n + 1) (b + 1)) leave stack (k + 1) k
                  (λ n' b'. add_bytes 1 n' b') (λ n' b'. leave_runs k n' b' stack)))
  visit_runs (object xs) k depth n b m stack e =
      run_step (rounds_members xs + (k + 1)) n b (visit (object xs) depth) stack (omega (arith, e))
      ∙ counted (rounds_members xs + (k + 1)) k depth n b _
          (λ n' b'. weigh_value (object xs) depth n' b') stack
          (opened (rounds_members xs + (k + 1)) k (n + 1) (b + 1) _
            (λ n' b'.
              then_weigh (weigh_members false xs (depth + 1) n' b')
                (λ n'' b''. add_bytes 1 n'' b''))
            stack
            (members_runs xs false (k + 1) (depth + 1) (n + 1) (b + 1) _ (leave ∷ stack) refl
              ∙ chained (weigh_members false xs (depth + 1) (n + 1) (b + 1)) leave stack (k + 1) k
                  (λ n' b'. add_bytes 1 n' b') (λ n' b'. leave_runs k n' b' stack)))

  items_runs :
      (xs : Items) (started : Bool) (k depth n b m : ℕ) (stack : List Frame)
      → m ≡ rounds_items xs + k
      → run m (going (items started xs depth ∷ stack) n b)
        ≡ resume k stack (weigh_items started xs depth n b)
  items_runs no_items started k depth n b m stack e =
      run_step k n b (items started no_items depth) stack (omega (arith, e))
  items_runs (item v rest) started k depth n b m stack e =
      run_step (rounds v + (rounds_items rest + k)) n b (items started (item v rest) depth) stack
        (omega (arith, e))
      ∙ visit_runs v (rounds_items rest + k) depth n (b + comma started) _
          (items true rest depth ∷ stack) refl
      ∙ chained (weigh v depth n (b + comma started)) (items true rest depth) stack
          (rounds_items rest + k) k (λ n' b'. weigh_items true rest depth n' b')
          (λ n' b'. items_runs rest true k depth n' b' _ stack refl)

  members_runs :
      (xs : Members) (started : Bool) (k depth n b m : ℕ) (stack : List Frame)
      → m ≡ rounds_members xs + k
      → run m (going (members started xs depth ∷ stack) n b)
        ≡ resume k stack (weigh_members started xs depth n b)
  members_runs no_members started k depth n b m stack e =
      run_step k n b (members started no_members depth) stack (omega (arith, e))
  members_runs (member none v rest) started k depth n b m stack e =
      run_step (rounds v + (rounds_members rest + k)) n b
        (members started (member none v rest) depth) stack (omega (arith, e))
      ∙ run_refused (rounds v + (rounds_members rest + k)) invalid_type
  members_runs (member (some key) v rest) started k depth n b m stack e =
      run_step (rounds v + (rounds_members rest + k)) n b
        (members started (member (some key) v rest) depth) stack (omega (arith, e))
      ∙ keyed (string_json_size (max_validation_bytes - (b + comma started)) key)
          (rounds v + (rounds_members rest + k)) k v rest depth n (b + comma started) stack
          (λ n' b'.
            visit_runs v (rounds_members rest + k) depth n' b' _ (members true rest depth ∷ stack)
              refl
            ∙ chained (weigh v depth n' b') (members true rest depth) stack
                (rounds_members rest + k) k (λ n'' b''. weigh_members true rest depth n'' b'')
                (λ n'' b''. members_runs rest true k depth n'' b'' _ stack refl))

resume_end : (k : ℕ) (w : Weighed) → resume k [] w ≡ verdict_of w
unfolding run
resume_end zero (weight n b) = refl
resume_end (suc k) (weight n b) = refl
resume_end k (over code) = refl

-- The loop over the stack always ends and answers what the recursion over the value answers.
pub measure_json_budget-weigh : (v : Json) → measure_json_budget v ≡ verdict_of (weigh v 0 0 0)
unfolding measure_json_budget
measure_json_budget-weigh v =
    visit_runs v 0 0 0 0 (rounds v) [] (omega arith) ∙ resume_end 0 (weigh v 0 0 0)
