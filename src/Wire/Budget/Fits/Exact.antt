-- ===== src/Wire/Budget/Fits/Exact.antt =====
-- The walk against the measures of a value.
use astrbot_ex.Prelude.{ℕ, ◌+◌, ◌≤◌, ◌≡◌, ◌≢◌, ◌↔◌, refl, sym, ◌∙◌, ap, arith}
use astrbot_ex.Wire.Json.{Json}
use astrbot_ex.Wire.Budget.{
  accepted, out_of_fuel, measure_json_budget, is_crowded, is_deep, max_validation_bytes,
}
use astrbot_ex.Wire.Budget.Weight.{
  Weighed, weight, over, verdict_of, weigh, weigh_value, count_node,
}
use astrbot_ex.Wire.Budget.Weight.Runs.{measure_json_budget-weigh}
use astrbot_ex.Wire.Budget.Fits.{Fits, json_size, inner}
use astrbot_ex.Wire.Budget.Fits.Text.{compact_size, compact-le}
use astrbot_ex.Wire.Budget.Fits.Sound.{then_weigh_cases, node_counted, value-Counts}
use astrbot_ex.Wire.Budget.Fits.Complete.{value_fits}

accepted_weight : (w : Weighed) → verdict_of w ≡ accepted → (n : ℕ) × (b : ℕ) × (w ≡ weight n b)
accepted_weight (weight n b) h = (n, b, refl)
accepted_weight (over code) h = ground arith

verdict_of-ne-out_of_fuel : (w : Weighed) → verdict_of w ≢ out_of_fuel
verdict_of-ne-out_of_fuel (weight n b) = λ h. ground arith
verdict_of-ne-out_of_fuel (over code) = λ h. ground arith

weighed-Fits : (v : Json) (n b : ℕ) → weigh v 0 0 0 ≡ weight n b → Fits v
weighed-Fits v n b h =
    let (n1, b1, p, q) =
      then_weigh_cases (count_node 0 0 0) (λ n' b'. weigh_value v 0 n' b') n b h in
    let c = node_counted 0 0 0 n1 b1 p in ground (arith, c, value-Counts v 0 n1 b1 n b)

Fits-weighed : (v : Json) → Fits v → weigh v 0 0 0 ≡ weight (0 + 1 + inner v) (0 + json_size v)
unfolding is_crowded is_deep
Fits-weighed v h = ground (arith, value_fits v 0 (0 + 1) 0)

accepted-Fits : (v : Json) → measure_json_budget v ≡ accepted → Fits v
accepted-Fits v h =
    let (n, b, e) = accepted_weight (weigh v 0 0 0) (sym (measure_json_budget-weigh v) ∙ h) in
    weighed-Fits v n b e

pub measure_json_budget-Fits :
    (v : Json)
    → (measure_json_budget v ≢ out_of_fuel)
      × ((measure_json_budget v ≡ accepted) ↔ Fits v)
      × (measure_json_budget v ≡ accepted → compact_size v ≤ max_validation_bytes)
measure_json_budget-Fits v = (
  λ h. verdict_of-ne-out_of_fuel (weigh v 0 0 0) (sym (measure_json_budget-weigh v) ∙ h),
  (accepted-Fits v, λ f. measure_json_budget-weigh v ∙ ap verdict_of (Fits-weighed v f)),
  λ h. omega (arith, (accepted-Fits v h).3, compact-le v),
)
