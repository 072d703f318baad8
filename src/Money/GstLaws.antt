-- ===== src/Money/GstLaws.antt =====
-- The parts of a GST split and of a payout add up (shared/money.py).
use Prim.Native.String.{String}
use hot_sot.Base.{
  ℕ, ◌+◌, ◌*◌, ◌-◌, ◌≤◌, ◌≡◌, refl, ◌↔◌, Bool, true, false, Option, arith, ◌^◌, sym, subst, ◌∙◌,
}
use hot_sot.Base.Int.{ℤ, pos, negsuc, ◌+ℤ◌, ◌-ℤ◌, ◌*ℤ◌, ◌≤ℤ◌, int_laws}
use hot_sot.Money.Rounding.{
  Decimal, finite, nan, infinite, round_half_up, round_half_up-pos, round_nat, round_nat_bounds,
}
use hot_sot.Money.Amount.{Money, ok, decimal, mul}
use hot_sot.Money.AmountLaws.{make_decimal, make_nonneg, ok_injective, mul_pos, sub_money}
use hot_sot.Money.Gst.{
  GstSplit, default_currency, calculate_gst, split_intrastate, calculate_commission, Payout,
  validate_invoice_amount, minimum, default_commission_rate, zero_money,
}

half_bounds : (n : ℕ) → (n ≤ 2 * round_nat n 2) × (2 * round_nat n 2 ≤ n + 1)
half_bounds n = omega (arith, round_nat_bounds n 2 (omega arith))

abbrev split : ℕ → String → GstSplit
split n c = record {
  cgst = record { amount = pos (round_nat n 2); currency = default_currency };
  sgst = record { amount = pos (n - round_nat n 2); currency = default_currency };
  igst = zero_money;
  total_gst = record { amount = pos n; currency = c };
}

sub_half : (n : ℕ) → pos n -ℤ pos (round_nat n 2) ≡ pos (n - round_nat n 2)
unfolding ◌-ℤ◌
sub_half n = ground (arith, half_bounds n)

split_intrastate_lem :
    (n : ℕ) (c : String)
    → split_intrastate (record { amount = pos n; currency = c }) ≡ ok (split n c)
unfolding split_intrastate
split_intrastate_lem n c =
    rw (round_half_up-pos, make_decimal, make_decimal, sub_half) (ground arith)

mul_nonneg : (m : Money) (d : Decimal) {t : Money} → mul m d ≡ ok t → pos 0 ≤ℤ t.amount
unfolding mul
mul_nonneg m (finite r s) h =
    (make_nonneg (decimal (finite (round_half_up (m.amount *ℤ r) (10 ^ s)) 2)) m.currency h).0
mul_nonneg m nan h = cc
mul_nonneg m infinite h = cc

-- What a GST split of a total owes: its parts add up to the total, which is 0 or more.
abbrev pub Conserves : Money → GstSplit → Type 0
Conserves total g =
    (g.total_gst ≡ total)
    × (pos 0 ≤ℤ total.amount)
    × (g.cgst.amount +ℤ g.sgst.amount +ℤ g.igst.amount ≡ total.amount)

split_sum : (n : ℕ) → pos (round_nat n 2) +ℤ pos (n - round_nat n 2) +ℤ pos 0 ≡ pos n
unfolding ◌+ℤ◌
split_sum n = ground (arith, half_bounds n)

split_intrastate-Conserves :
    (a : ℤ) (c : String) {g : GstSplit}
    → pos 0 ≤ℤ a
    → split_intrastate (record { amount = a; currency = c }) ≡ ok g
    → Conserves (record { amount = a; currency = c }) g
split_intrastate-Conserves (pos n) c p h =
    subst (Conserves (record { amount = pos n; currency = c }))
      (ok_injective (sym (split_intrastate_lem n c) ∙ h)) (refl, p, split_sum n)
split_intrastate-Conserves (negsuc n) c p h = absurd (omega arith)

-- Whatever the base, the rate and the kind of supply, where `calculate_gst` succeeds its parts add up
-- to the tax, which is 0 or more: no paisa is lost in the split.
pub calculate_gst-Conserves :
    (base : Money) (rate : Decimal) (interstate : Bool) {g : GstSplit} {tax : Money}
    → mul base rate ≡ ok tax
    → calculate_gst base rate interstate ≡ ok g
    → Conserves tax g
unfolding calculate_gst
calculate_gst-Conserves base rate true {g} {tax} e h =
    subst (Conserves tax) (ok_injective (rw e at h)) (refl, mul_nonneg base rate e, omega int_laws)
calculate_gst-Conserves base rate false {g} {tax} e h =
    split_intrastate-Conserves tax.amount tax.currency {g = g} (mul_nonneg base rate e) (rw e at h)

-- Within a state the tax on a base and a rate that are 0 or more is split without failing, CGST and
-- SGST differ by at most one paisa, CGST is the larger, and no IGST is due.
pub calculate_gst_halves :
    (a r s : ℕ) (c : String)
    → (g : GstSplit) × (cgst sgst : ℕ) × (calculate_gst
          (record { amount = pos a; currency = c })
          (finite (pos r) s)
          false
        ≡ ok g)
      × (g.cgst.amount ≡ pos cgst)
      × (g.sgst.amount ≡ pos sgst)
      × (sgst ≤ cgst)
      × (cgst ≤ sgst + 1)
      × (g.igst.amount ≡ pos 0)
unfolding calculate_gst
calculate_gst_halves a r s c =
    let n = round_nat (a * r) (10 ^ s) in
    (
      split n c,
      round_nat n 2,
      n - round_nat n 2,
      rw mul_pos (split_intrastate_lem n c),
      refl,
      refl,
      omega (arith, half_bounds n),
      omega (arith, half_bounds n),
      refl,
    )

-- An invoice passes exactly where it is not negative and reaches the minimum, one rupee by default.
pub validate_invoice_amount_iff :
    (m : Money) (least : Option Money)
    → (validate_invoice_amount m least ≡ ok tt)
      ↔ ((pos 0 ≤ℤ m.amount) × (minimum least ≤ℤ m.amount))
unfolding validate_invoice_amount
validate_invoice_amount_iff m least = ground arith

pos_sub : (a b : ℕ) → b ≤ a → pos a -ℤ pos b ≡ pos (a - b)
unfolding ◌-ℤ◌
pos_sub a b h = ground arith

abbrev commission_of : ℕ → ℕ
commission_of a = round_nat (a * 15) 100

abbrev gst_of : ℕ → ℕ
gst_of a = round_nat (commission_of a * 18) 100

payout_fits : (a : ℕ) → commission_of a + gst_of a ≤ a
payout_fits a = omega (
  arith,
  round_nat_bounds (a * 15) 100 (omega arith),
  round_nat_bounds (commission_of a * 18) 100 (omega arith),
)

abbrev payout : ℕ → String → Payout
payout a c = record {
  commission = record { amount = pos (commission_of a); currency = c };
  gst = record { amount = pos (gst_of a); currency = c };
  net_payout = record {
    amount = pos (a - commission_of a - gst_of a);
    currency = default_currency;
  };
}

-- The default payout of an amount of 0 or more succeeds; its commission, GST and net payout add up to
-- the revenue, and none of them is negative.
pub calculate_commission_total :
    (a : ℕ) (c : String)
    → (p : Payout) × (commission gst net : ℕ) × (calculate_commission
          (record { amount = pos a; currency = c })
          default_commission_rate
        ≡ ok p)
      × (p.commission.amount ≡ pos commission)
      × (p.gst.amount ≡ pos gst)
      × (p.net_payout.amount ≡ pos net)
      × (commission + gst + net ≡ a)
unfolding calculate_commission
calculate_commission_total a c =
    let fits = payout_fits a in
    let less : commission_of a ≤ a = omega (arith, fits) in
    let rest : gst_of a ≤ a - commission_of a = omega (arith, fits) in
    (
      payout a c,
      commission_of a,
      gst_of a,
      a - commission_of a - gst_of a,
      rw (mul_pos, mul_pos, sub_money, sub_money, make_decimal, pos_sub a (commission_of a) less)
          (rw (pos_sub (a - commission_of a) (gst_of a) rest)),
      refl,
      refl,
      refl,
      omega (arith, fits),
    )
