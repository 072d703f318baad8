-- ===== src/Money/Amount.antt =====
-- `class Money` of shared/money.py. An amount is its whole number of paise, since
-- the constructor rounds every amount to two places.
use Prim.Native.String.{String}
use package.text.Mathlib.Text.{◌==◌ as str_eq}
use hot_sot.Base.{
  ℕ, zero, suc, ◌+◌, ◌^◌, Bool, true, false, not, ◌&&◌, Option, none, some, ◌==◌, if◌then◌else◌,
}
use hot_sot.Base.Int.{ℤ, pos, negsuc, pos_part, neg_part, ◌+ℤ◌, ◌-ℤ◌, ◌*ℤ◌, ltb_ℤ}
use hot_sot.Money.Rounding.{
  Decimal, finite, nan, infinite, round_half_up, paise, not_a_number, invalid, round_inr, Quantized,
}

pub record Money : Type 0 where
  pub amount : ℤ
  pub currency : String

-- The exceptions, named by the check that raises them.
pub data MoneyError : Type 0 where
  invalid_operation invalid_amount not_finite negative float_amount unsupported : MoneyError
  division_by_zero below_minimum : MoneyError

pub data Result {ℓ} (A : Type ℓ) : Type ℓ where
  ok : A → Result A
  err : MoneyError → Result A

-- A check that raises where its test fails.
abbrev pub guard : Bool → MoneyError → Result (Unit {0})
guard holds e = if holds then ok tt else err e

infixl 5 ◌>>=◌ ◌>>◌
abbrev pub ◌>>=◌ {ℓ κ} : {A : Type ℓ} {B : Type κ} → Result A → (A → Result B) → Result B
err e >>= next = err e
ok a >>= next = next a

abbrev pub ◌>>◌ {ℓ κ} : {A : Type ℓ} {B : Type κ} → Result A → Result B → Result B
err e >> next = err e
ok a >> next = next

-- The types that the constructor tells apart. A text is what `Decimal` reads it as, or nothing where
-- `Decimal` raises InvalidOperation.
pub data Input : Type 0 where
  money : Money → Input
  decimal : Decimal → Input
  text : Option Decimal → Input
  int : ℤ → Input
  float other : Input

abbrev is_negative : ℤ → Bool
is_negative a = ltb_ℤ a (pos 0)

-- The checks at the end of the constructor; `_currency` is the parameter on every branch.
abbrev pub validated : Quantized → String → Bool → Result Money
validated (paise a) currency allow_negative =
    if not allow_negative && is_negative a
    then err negative
    else ok (record { amount = a; currency = currency })
validated not_a_number currency allow_negative = err not_finite
validated invalid currency allow_negative = err invalid_operation

-- InvalidOperation is caught and raised as ValueError around the conversion of a text alone.
abbrev pub of_text : Option Decimal → String → Bool → Result Money
of_text none currency allow_negative = err invalid_amount
of_text (some infinite) currency allow_negative = err invalid_amount
of_text (some d) currency allow_negative = validated (round_inr d) currency allow_negative

-- `Money.__init__`
unfoldable pub make : Input → String → Bool → Result Money
unfolding round_inr
make (money m) currency allow_negative = validated (paise m.amount) currency allow_negative
make (decimal d) currency allow_negative = validated (round_inr d) currency allow_negative
make (text t) currency allow_negative = of_text t currency allow_negative
make (int n) currency allow_negative = validated (round_inr (finite n 0)) currency allow_negative
make float currency allow_negative = err float_amount
make other currency allow_negative = err unsupported

abbrev pub is_zero : Money → Bool
is_zero m = pos_part m.amount == 0 && neg_part m.amount == 0

abbrev pub is_positive : Money → Bool
is_positive m = ltb_ℤ (pos 0) m.amount

-- Exact sums, differences and products of an amount in paise and a Decimal.
abbrev pub plus : ℤ → Decimal → Decimal
plus a (finite m s) = finite (a *ℤ pos (10 ^ s) +ℤ m *ℤ pos 100) (s + 2)
plus a nan = nan
plus a infinite = infinite

abbrev pub minus : ℤ → Decimal → Decimal
minus a (finite m s) = finite (a *ℤ pos (10 ^ s) -ℤ m *ℤ pos 100) (s + 2)
minus a nan = nan
minus a infinite = infinite

-- The other operand: a Money, or a number that `Decimal` reads.
pub data Operand : Type 0 where
  money : Money → Operand
  number : Decimal → Operand

-- `Money.__add__`
unfoldable pub add : Money → Operand → Result Money
add m (Operand.money o) = make (decimal (finite (m.amount +ℤ o.amount) 2)) m.currency false
add m (number d) = make (decimal (plus m.amount d)) m.currency false

-- `Money.__sub__`
unfoldable pub sub : Money → Operand → Result Money
sub m (Operand.money o) = make (decimal (finite (m.amount -ℤ o.amount) 2)) m.currency true
sub m (number d) = make (decimal (minus m.amount d)) m.currency true

-- `round_inr(self._amount * other)`, and the second rounding in the constructor.
unfoldable pub mul : Money → Decimal → Result Money
mul m (finite r s) =
    make (decimal (finite (round_half_up (m.amount *ℤ r) (10 ^ s)) 2)) m.currency false
mul m nan = err not_finite
mul m infinite = err invalid_operation

-- The quotient of an amount in paise by a Decimal that is not 0, rounded; the divisor's sign goes to
-- the dividend.
abbrev pub quotient : ℤ → ℤ → ℕ → ℤ
quotient a (pos d) s = round_half_up (a *ℤ pos (10 ^ s)) d
quotient a (negsuc d) s = round_half_up ((pos 0 -ℤ a) *ℤ pos (10 ^ s)) (suc d)

-- `Money.__truediv__`; an amount over an infinity is 0.
unfoldable pub truediv : Money → Decimal → Result Money
truediv m (finite (pos zero) s) = err division_by_zero
truediv m (finite d s) = make (decimal (finite (quotient m.amount d s) 2)) m.currency true
truediv m nan = err not_finite
truediv m infinite = make (decimal (finite (pos 0) 2)) m.currency true

abbrev same_amount : ℤ → ℤ → Bool
same_amount a b = not (ltb_ℤ a b) && not (ltb_ℤ b a)

-- `Money.__eq__` on two amounts.
unfoldable pub eq : Money → Money → Bool
eq m o = same_amount m.amount o.amount && str_eq m.currency o.currency

-- The orders compare the amounts alone.
unfoldable pub lt : Money → Money → Bool
lt m o = ltb_ℤ m.amount o.amount

unfoldable pub le : Money → Money → Bool
le m o = not (ltb_ℤ o.amount m.amount)

unfoldable pub to_paise : Money → ℤ
to_paise m = m.amount

-- `Decimal(paise) / Decimal(100)` is exact.
unfoldable pub from_paise : ℤ → String → Result Money
from_paise p currency = make (decimal (finite p 2)) currency false
