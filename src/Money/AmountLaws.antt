-- ===== src/Money/AmountLaws.antt =====
-- The arithmetic of `Money` is exact in paise wherever it succeeds (shared/money.py).
use Prim.Native.String.{String}
use mathlib.Core.Path.{ap₂}
use hot_sot.Base.{ℕ, ◌+◌, ◌*◌, ◌^◌, ◌≤◌, ◌<◌, ◌≡◌, ap, sym, ◌∙◌, Bool, false, none, some, arith}
use hot_sot.Base.Int.{ℤ, pos, ◌+ℤ◌, ◌-ℤ◌, ◌≤ℤ◌, int_laws}
use hot_sot.Money.Rounding.{
  finite, nan, infinite, paise, not_a_number, invalid, round_inr, Quantized, round_nat,
  round_nat_bounds, pow_pos, round_inr_whole, pos-*ℤ, round_half_up-pos,
}
use hot_sot.Money.Amount.{
  Money, ok, err, Input, decimal, Operand, make, validated, add, sub, mul, from_paise, to_paise,
}

pub ok_injective {ℓ} : {A : Type ℓ} {a b : A} → ok a ≡ ok b → a ≡ b
ok_injective {a = a} h = ap (λ r. elim r [ ok x ↦ x | err e ↦ a ]) h

pub make_decimal :
    (a : ℤ) (c : String) (b : Bool) → make (decimal (finite a 2)) c b ≡ validated (paise a) c b
unfolding make
make_decimal a c b = ap (λ q. validated q c b) (round_inr_whole a)

-- A whole number of paise of 0 or more is taken as it is.
pub make_pos :
    (k : ℕ) (c : String)
    → make (decimal (finite (pos k) 2)) c false ≡ ok (record { amount = pos k; currency = c })
make_pos k c = rw make_decimal (ground arith)

validated_nonneg :
    (q : Quantized) (c : String) {m : Money}
    → validated q c false ≡ ok m
    → (pos 0 ≤ℤ m.amount) × (m.currency ≡ c)
validated_nonneg (paise a) c h = ground arith
validated_nonneg not_a_number c h = cc
validated_nonneg invalid c h = cc

-- The constructor without `allow_negative` gives no negative amount, and it gives the currency that it
-- was called with, also where the amount is a Money of another currency.
pub make_nonneg :
    (i : Input) (c : String) {m : Money}
    → make i c false ≡ ok m
    → (pos 0 ≤ℤ m.amount) × (m.currency ≡ c)
unfolding make
make_nonneg (Input.money m) c h = validated_nonneg (paise m.amount) c h
make_nonneg (decimal d) c h = validated_nonneg (round_inr d) c h
make_nonneg (Input.text none) c h = cc
make_nonneg (Input.text (some (finite m s))) c h = validated_nonneg (round_inr (finite m s)) c h
make_nonneg (Input.text (some nan)) c h = validated_nonneg (round_inr nan) c h
make_nonneg (Input.text (some infinite)) c h = cc
make_nonneg (Input.int n) c h = validated_nonneg (round_inr (finite n 0)) c h
make_nonneg Input.float c h = cc
make_nonneg Input.other c h = cc

pub sub_money :
    (m o : Money)
    → sub m (Operand.money o) ≡ ok (record { amount = m.amount -ℤ o.amount; currency = m.currency })
unfolding sub
sub_money m o = rw make_decimal

+ℤ_cancel : (a b : ℤ) → a +ℤ b -ℤ b ≡ a
+ℤ_cancel a b = omega int_laws

add_inverts :
    (m o : Money) {r : Money}
    → add m (Operand.money o) ≡ ok r
    → (r.amount ≡ m.amount +ℤ o.amount) × (r.currency ≡ m.currency)
unfolding add
add_inverts m o h =
    let e : validated (paise (m.amount +ℤ o.amount)) m.currency false ≡ ok _ =
      sym (make_decimal (m.amount +ℤ o.amount) m.currency false) ∙ h in
    ground arith

-- Subtraction never fails on amounts, and takes back what an addition of the same amount gave.
pub sub-add :
    (m o : Money) {r : Money} → add m (Operand.money o) ≡ ok r → sub r (Operand.money o) ≡ ok m
sub-add m o {r} h =
    let (amount, currency) = add_inverts m o h in
    sub_money r o
    ∙ ap₂ (λ a c. ok (record { amount = a; currency = c }))
        (ap (λ a. a -ℤ o.amount) amount ∙ +ℤ_cancel m.amount o.amount) currency

pub mul_pos :
    (a r s : ℕ) (c : String)
    → mul (record { amount = pos a; currency = c }) (finite (pos r) s)
      ≡ ok (record { amount = pos (round_nat (a * r) (10 ^ s)); currency = c })
unfolding mul
mul_pos a r s c = rw (make_decimal, pos-*ℤ) (rw round_half_up-pos (ground arith))

-- An amount times a rate, both 0 or more, is within half a paisa of the exact product, and on a tie
-- it is the upper of the two.
pub mul_bounds :
    (a r s : ℕ) (c : String)
    → (p : ℕ) × (mul (record { amount = pos a; currency = c }) (finite (pos r) s)
        ≡ ok (record { amount = pos p; currency = c }))
      × (2 * (10 ^ s * p) ≤ 2 * (a * r) + 10 ^ s)
      × (2 * (a * r) < 2 * (10 ^ s * p) + 10 ^ s)
mul_bounds a r s c =
    let b = round_nat_bounds (a * r) (10 ^ s) (pow_pos s) in
    (round_nat (a * r) (10 ^ s), mul_pos a r s c, b.0, b.1)

-- An amount that is 0 or more comes back from its paise.
pub from_paise-to_paise :
    (m : Money) → pos 0 ≤ℤ m.amount → from_paise (to_paise m) m.currency ≡ ok m
unfolding from_paise to_paise
from_paise-to_paise m h = rw make_decimal (ground arith)
