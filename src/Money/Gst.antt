-- ===== src/Money/Gst.antt =====
-- GST, commission and invoice checks of shared/money.py.
use Prim.Native.String.{String}
use hot_sot.Base.{Bool, true, false, ◌||◌, Option, none, some, if◌then◌else◌, not}
use hot_sot.Base.Int.{ℤ, pos, ◌-ℤ◌, ltb_ℤ}
use hot_sot.Money.Rounding.{Decimal, finite, round_half_up}
use hot_sot.Money.Amount.{
  Money, Result, ok, ◌>>=◌, ◌>>◌, guard, negative, below_minimum, decimal, Operand, make, mul, sub,
}

abbrev pub default_currency : String
default_currency = "INR"

abbrev pub gst_rate_standard : Decimal
gst_rate_standard = finite (pos 5) 2

abbrev pub gst_rate_ac : Decimal
gst_rate_ac = finite (pos 18) 2

abbrev pub gst_rate_canteen : Decimal
gst_rate_canteen = finite (pos 5) 2

abbrev pub gst_on_commission : Decimal
gst_on_commission = finite (pos 18) 2

abbrev pub default_commission_rate : Decimal
default_commission_rate = finite (pos 15) 2

pub record GstSplit : Type 0 where
  pub cgst : Money
  pub sgst : Money
  pub igst : Money
  pub total_gst : Money

-- `Money("0.00")`
abbrev pub zero_money : Money
zero_money = record { amount = pos 0; currency = default_currency }

-- The halves of the total, in Money of the default currency: CGST is the rounded half, SGST the exact
-- remainder.
unfoldable pub split_intrastate : Money → Result GstSplit
split_intrastate total =
    let half = round_half_up total.amount 2 in
    do
      cgst ← make (decimal (finite half 2)) default_currency false
      sgst ← make (decimal (finite (total.amount -ℤ half) 2)) default_currency true
      ok (record { cgst = cgst; sgst = sgst; igst = zero_money; total_gst = total })

unfoldable pub calculate_gst : Money → Decimal → Bool → Result GstSplit
unfolding split_intrastate
calculate_gst base rate is_interstate = do
  total ← mul base rate
  (if is_interstate
      then ok (record { cgst = zero_money; sgst = zero_money; igst = total; total_gst = total })
      else split_intrastate total)

unfoldable pub determine_gst_rate : Bool → Bool → Bool → Decimal
determine_gst_rate is_ac_restaurant serves_alcohol is_canteen =
    if is_canteen
    then gst_rate_canteen
    else if is_ac_restaurant || serves_alcohol
    then gst_rate_ac
    else gst_rate_standard

pub record Payout : Type 0 where
  pub commission : Money
  pub gst : Money
  pub net_payout : Money

unfoldable pub calculate_commission : Money → Decimal → Result Payout
calculate_commission revenue rate = do
  commission ← mul revenue rate
  gst ← mul commission gst_on_commission
  less ← sub revenue (Operand.money commission)
  net ← sub less (Operand.money gst)
  payout ← make (decimal (finite net.amount 2)) default_currency true
  ok (record { commission = commission; gst = gst; net_payout = payout })

-- The minimum is one rupee where none is given.
abbrev pub minimum : Option Money → ℤ
minimum none = pos 100
minimum (some m) = m.amount

unfoldable pub validate_invoice_amount : Money → Option Money → Result (Unit {0})
validate_invoice_amount amount min_amount = do
  guard (not (ltb_ℤ amount.amount (pos 0))) negative
  guard (not (ltb_ℤ amount.amount (minimum min_amount))) below_minimum
  ok tt
