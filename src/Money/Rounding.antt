-- ===== src/Money/Rounding.antt =====
-- `round_inr` of shared/money.py: `quantize` to two places with ROUND_HALF_UP, which
-- rounds a half away from zero. Decimals are exact here; the source's context keeps 28 digits.
use native.Mathlib.Nat.{one-le-pow}
use hot_sot.Base.{ℕ, zero, suc, ◌+◌, ◌*◌, ◌/◌, ◌^◌, ◌≤◌, ◌<◌, ◌≡◌, refl, arith}
use hot_sot.Base.Int.{ℤ, pos, negsuc, ◌*ℤ◌}

-- A `decimal.Decimal`: a mantissa over ten to a scale, NaN, or an infinity of either sign.
pub data Decimal : Type 0 where
  finite : ℤ → ℕ → Decimal
  nan infinite : Decimal

-- A quotient rounded to the nearest whole number, a half upwards.
unfoldable pub round_nat : ℕ → ℕ → ℕ
round_nat n d = (2 * n + d) / (2 * d)

abbrev pub negate : ℕ → ℤ
negate zero = pos 0
negate (suc n) = negsuc n

-- The rounded quotient of an integer, a half away from zero.
unfoldable pub round_half_up : ℤ → ℕ → ℤ
round_half_up (pos n) d = pos (round_nat n d)
round_half_up (negsuc n) d = negate (round_nat (suc n) d)

-- What `quantize` gives: whole paise, NaN, or InvalidOperation for an infinity.
pub data Quantized : Type 0 where
  paise : ℤ → Quantized
  not_a_number invalid : Quantized

unfoldable pub round_inr : Decimal → Quantized
round_inr (finite m s) = paise (round_half_up (m *ℤ pos 100) (10 ^ s))
round_inr nan = not_a_number
round_inr infinite = invalid

div_bounds : (n d : ℕ) → 0 < d → (d * (n / d) ≤ n) × (n < d * (n / d) + d)
div_bounds n d h = grind arith

-- The rounded quotient is within a half of the exact one; of two at the same distance it is the upper.
pub round_nat_bounds :
    (n d : ℕ)
    → 0 < d
    → (2 * (d * round_nat n d) ≤ 2 * n + d) × (2 * n < 2 * (d * round_nat n d) + d)
unfolding round_nat
round_nat_bounds n d h = grind (arith, div_bounds (2 * n + d) (2 * d))

pub pow_pos : (s : ℕ) → 0 < 10 ^ s
pow_pos s = one-le-pow s 10 (omega arith)

-- A whole number of units is rounded to itself.
pub round_nat_whole : (k d : ℕ) → 0 < d → round_nat (k * d) d ≡ k
round_nat_whole k d h = grind (arith, round_nat_bounds (k * d) d h)

pub pos-*ℤ : (n k : ℕ) → pos n *ℤ pos k ≡ pos (n * k)
unfolding ◌*ℤ◌
pos-*ℤ n k = ground arith

pub negsuc-*ℤ : (n k : ℕ) → negsuc n *ℤ pos k ≡ negate (suc n * k)
unfolding ◌*ℤ◌
negsuc-*ℤ n zero = ground arith
negsuc-*ℤ n (suc k) = grind arith

pub round_half_up-pos : (n d : ℕ) → round_half_up (pos n) d ≡ pos (round_nat n d)
unfolding round_half_up
round_half_up-pos n d = refl

round_nat_zero : (d : ℕ) → 0 < d → round_nat 0 d ≡ 0
round_nat_zero d h = grind (arith, round_nat_bounds 0 d h)

round_negate : (n d : ℕ) → 0 < d → round_half_up (negate n) d ≡ negate (round_nat n d)
unfolding round_half_up
round_negate zero d h = rw (round_nat_zero d h)
round_negate (suc n) d h = refl

-- Whole paise are rounded to themselves.
pub round_inr_whole : (a : ℤ) → round_inr (finite a 2) ≡ paise a
unfolding round_inr round_half_up
round_inr_whole (pos n) = rw (pos-*ℤ, round_nat_whole n 100 (omega arith))
round_inr_whole (negsuc n) = rw (
  negsuc-*ℤ,
  round_negate (suc n * 100) 100 (omega arith),
  round_nat_whole (suc n) 100 (omega arith),
)
