-- ===== src/Compensation/Examples.antt =====
-- Compensations, and the theorems on them at concrete inputs.
use hot_sot.Base.{ℕ, ◌*◌, ◌≤◌, ◌≡◌, refl, ◌⊎◌, none, some, [], ◌∷◌}
use hot_sot.Base.Int.{pos, ◌≤ℤ◌, ◌*ℤ◌, ◌-ℤ◌}
use hot_sot.Money.Rounding.{finite, round_half_up, round_nat, round_inr}
use hot_sot.Money.Amount.{ok, make}
use hot_sot.Compensation.Engine.{
  shelf_expired, delay_15min, delay_30min, quality_issue, rule, rule_amount, absolute_cap_of,
  calculate_compensation, max_compensation_amount, raised, trigger_refund, failed,
}
use hot_sot.Compensation.Trigger.{processing, trigger_compensation}
use hot_sot.Compensation.Bounds.{cap_ℕ, calculate_compensation_bounds}
use hot_sot.Compensation.Total.{grant_all, grant_all_capped}

-- 20 percent of 333.35 rupees, and what is left of it after 300 rupees.
delay_of_15 : (calculate_compensation 1 delay_15min (pos 33335) none).amount ≡ pos 6667
unfolding calculate_compensation rule_amount absolute_cap_of rule round_half_up round_nat ◌*ℤ◌
delay_of_15 = refl

delay_after_300 :
    (calculate_compensation 1 delay_15min (pos 33335) (some (pos 30000))).amount ≡ pos 3335
unfolding calculate_compensation rule_amount absolute_cap_of rule round_half_up round_nat ◌*ℤ◌ ◌-ℤ◌
delay_after_300 = refl

-- The refund fails, and the case is PROCESSING all the same.
failed_refund :
    trigger_compensation [] shelf_expired (finite (pos 500) 0) raised
    ≡ ok (
        record {
          reason = shelf_expired;
          amount = pos 50000;
          status = processing;
          refund = some failed;
        }
        ∷ [])
unfolding trigger_compensation make calculate_compensation rule_amount absolute_cap_of rule
    round_inr round_half_up round_nat trigger_refund ◌*ℤ◌
failed_refund = refl

calculate_compensation_bounds_example :
    let c = calculate_compensation 100 quality_issue (pos 1_234_567) (some (pos 9)) in
    (pos 0 ≤ℤ c.amount)
    × (c.amount ≤ℤ pos 1_234_567)
    × (c.amount ≤ℤ pos (max_compensation_amount * 100))
    × ((c.amount ≡ pos 0) ⊎ (c.amount ≤ℤ rule_amount 100 quality_issue (pos 1_234_567)))
calculate_compensation_bounds_example =
    calculate_compensation_bounds 100 1_234_567 quality_issue (some 9)

grant_all_capped_example :
    (t : ℕ) × (grant_all 1 40000 (pos 0) (delay_30min ∷ shelf_expired ∷ delay_15min ∷ []) ≡ pos t)
    × (t ≤ cap_ℕ 1 40000)
grant_all_capped_example = grant_all_capped 1 40000 (delay_30min ∷ shelf_expired ∷ delay_15min ∷ [])
