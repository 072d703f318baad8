-- ===== src/Compensation/Bounds.antt =====
-- The bounds of one compensation
-- (services/compensation-service/app/core/engine.py).
use hot_sot.Base.{ℕ, ◌*◌, ◌≤◌, ◌<◌, ◌≡◌, ◌⊎◌, Option, none, some, arith, min}
use hot_sot.Base.Int.{ℤ, pos, ◌+ℤ◌, ◌-ℤ◌, ◌≤ℤ◌}
use hot_sot.Money.Rounding.{pos-*ℤ, round_half_up-pos, round_nat_whole}
use hot_sot.Compensation.Engine.{
  Reason, rule, rule_amount, absolute_cap_of, calculate_compensation, max_compensation_amount,
  capped, max_ℤ,
}

-- The compensation granted before, which is 0 or more.
abbrev pub granted : Option ℕ → Option ℤ
granted none = none
granted (some e) = some (pos e)

final : ℤ → ℤ → Option ℤ → ℤ
final r cap existing = max_ℤ (capped r cap existing) (pos 0)

final_bounds :
    (r : ℤ) (cap : ℕ) (existing : Option ℕ)
    → (pos 0 ≤ℤ final r (pos cap) (granted existing))
      × (final r (pos cap) (granted existing) ≤ℤ pos cap)
      × ((final r (pos cap) (granted existing) ≡ pos 0)
          ⊎ (final r (pos cap) (granted existing) ≤ℤ r))
unfolding final ◌-ℤ◌
final_bounds r cap none = ground arith
final_bounds r cap (some e) = ground arith

final_aggregate :
    (r : ℤ) (cap e : ℕ) → e ≤ cap → final r (pos cap) (some (pos e)) +ℤ pos e ≤ℤ pos cap
unfolding final ◌-ℤ◌ ◌+ℤ◌
final_aggregate r cap e h = ground arith

abbrev pub cap_ℕ : ℕ → ℕ → ℕ
cap_ℕ d n = min n (max_compensation_amount * d)

cap_lem : (d n : ℕ) → absolute_cap_of d (pos n) ≡ pos (cap_ℕ d n)
unfolding absolute_cap_of
cap_lem d n = ground arith

-- Whatever the reason, a compensation is 0 or more; for an order of 0 or more it is at most the
-- order's amount and at most 5000 rupees; and it is 0 or at most what the rule gives.
pub calculate_compensation_bounds :
    (d n : ℕ) (reason : Reason) (existing : Option ℕ)
    → let c = calculate_compensation d reason (pos n) (granted existing) in
      (pos 0 ≤ℤ c.amount)
      × (c.amount ≤ℤ pos n)
      × (c.amount ≤ℤ pos (max_compensation_amount * d))
      × ((c.amount ≡ pos 0) ⊎ (c.amount ≤ℤ rule_amount d reason (pos n)))
unfolding calculate_compensation final
calculate_compensation_bounds d n reason existing =
    let b = final_bounds (rule_amount d reason (pos n)) (cap_ℕ d n) existing in
    rw (cap_lem d n) (b.0, omega (arith, b.1), omega (arith, b.1), b.2)

-- With the compensation granted before, the sum stays below the cap of the order: the smaller of its
-- amount and 5000 rupees.
pub calculate_compensation_aggregate :
    (d n e : ℕ) (reason : Reason)
    → e ≤ cap_ℕ d n
    → (calculate_compensation d reason (pos n) (some (pos e))).amount +ℤ pos e ≤ℤ pos (cap_ℕ d n)
unfolding calculate_compensation final
calculate_compensation_aggregate d n e reason h =
    rw (cap_lem d n) (final_aggregate (rule_amount d reason (pos n)) (cap_ℕ d n) e h)

rule_amount_full :
    (d k : ℕ) (reason : Reason)
    → 0 < d
    → (rule reason).percentage ≡ 100
    → rule_amount d reason (pos (k * d)) ≡ pos (k * d)
unfolding rule_amount
rule_amount_full d k reason h full =
    let same : k * d * 100 ≡ k * (100 * d) = omega arith in
    rw (full, pos-*ℤ, same, round_half_up-pos, round_nat_whole k (100 * d) (omega arith), pos-*ℤ)

final_full : (a cap : ℕ) → a ≤ cap → final (pos a) (pos cap) none ≡ pos a
unfolding final
final_full a cap h = ground arith

-- A rule of a full refund gives an order of whole paise up to 5000 rupees back in full.
pub calculate_compensation_full :
    (d k : ℕ) (reason : Reason)
    → 0 < d
    → k ≤ max_compensation_amount
    → (rule reason).percentage ≡ 100
    → (calculate_compensation d reason (pos (k * d)) none).amount ≡ pos (k * d)
unfolding calculate_compensation final
calculate_compensation_full d k reason h small full =
    let scaled : k * d ≤ max_compensation_amount * d = grind arith in
    rw (cap_lem d (k * d), rule_amount_full d k reason h full)
      (final_full (k * d) (cap_ℕ d (k * d)) (omega (arith, scaled)))
