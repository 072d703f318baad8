-- ===== src/Money/Examples.antt =====
-- Amounts, splits and payouts, and the theorems of the money module at concrete inputs.
use hot_sot.Base.{ℕ, ◌+◌, ◌≡◌, refl, false, none, some, arith}
use hot_sot.Base.Int.{pos, negsuc, ◌-ℤ◌, ◌*ℤ◌}
use hot_sot.Money.Rounding.{finite, nan, infinite, round_half_up, round_inr, round_nat}
use hot_sot.Money.Amount.{
  Money, ok, err, negative, not_finite, invalid_amount, division_by_zero, below_minimum, decimal,
  Operand, make, add, sub, mul, truediv, from_paise, to_paise,
}
use hot_sot.Money.Amount
use hot_sot.Money.AmountLaws.{from_paise-to_paise}
use hot_sot.Money.Gst.{
  GstSplit, Payout, calculate_gst, calculate_commission, gst_rate_ac, default_commission_rate,
  validate_invoice_amount,
}
use hot_sot.Money.GstLaws.{Conserves, calculate_gst-Conserves, calculate_commission_total}

abbrev inr : ℕ → Money
inr p = record { amount = pos p; currency = "INR" }

abbrev gst_199_99 : GstSplit
gst_199_99 = record { cgst = inr 1800; sgst = inr 1800; igst = inr 0; total_gst = inr 3600 }

-- The header of shared/money.py shows 17.99, 18.00 and 35.99 for this call.
header_example : calculate_gst (inr 19999) gst_rate_ac false ≡ ok gst_199_99
unfolding calculate_gst mul make round_half_up round_nat ◌*ℤ◌ ◌-ℤ◌
header_example = refl

half_goes_away_from_zero :
    round_inr (finite (negsuc 199_994) 3) ≡ round_inr (finite (negsuc 19_999) 2)
unfolding round_inr round_half_up round_nat ◌*ℤ◌
half_goes_away_from_zero = refl

text_not_a_number : make (Amount.text (some nan)) "INR" false ≡ err not_finite
unfolding make
text_not_a_number = refl

text_infinite : make (Amount.text (some infinite)) "INR" false ≡ err invalid_amount
unfolding make
text_infinite = refl

third_of_ten_rupees : truediv (inr 1000) (finite (pos 3) 0) ≡ ok (inr 333)
unfolding truediv make round_inr round_half_up round_nat ◌*ℤ◌
third_of_ten_rupees = refl

divided_by_zero : truediv (inr 1000) (finite (pos 0) 2) ≡ err division_by_zero
unfolding truediv
divided_by_zero = refl

free_order : validate_invoice_amount (inr 0) none ≡ err below_minimum
unfolding validate_invoice_amount
free_order = refl

from_paise-to_paise_example : from_paise (to_paise (inr 19999)) "INR" ≡ ok (inr 19999)
from_paise-to_paise_example = from_paise-to_paise (inr 19999) (omega arith)

calculate_gst-Conserves_example : Conserves (inr 3600) gst_199_99
unfolding calculate_gst mul make round_inr round_half_up round_nat ◌*ℤ◌ ◌-ℤ◌
calculate_gst-Conserves_example =
    calculate_gst-Conserves (inr 19999) gst_rate_ac false {g = gst_199_99} {tax = inr 3600} refl
      refl

calculate_commission_total_example :
    (p : Payout) × (commission gst net : ℕ) × (calculate_commission
        (inr 100000)
        default_commission_rate
      ≡ ok p)
    × (p.commission.amount ≡ pos commission)
    × (p.gst.amount ≡ pos gst)
    × (p.net_payout.amount ≡ pos net)
    × (commission + gst + net ≡ 100000)
calculate_commission_total_example = calculate_commission_total 100000 "INR"
