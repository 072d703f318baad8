-- ===== src/Compensation/Total.antt =====
-- What the cases of one order grant together
-- (services/compensation-service/app/routes/compensation.py).
use native.Mathlib.Nat.{mul-one}
use hot_sot.Base.{ℕ, ◌+◌, ◌≤◌, ◌≡◌, refl, ap, subst, ◌∙◌, none, some, arith, List, [], ◌∷◌, ◌++◌}
use hot_sot.Base.Int.{ℤ, pos, negsuc, ◌+ℤ◌, ◌≤ℤ◌, int_laws}
use hot_sot.Money.Rounding.{finite}
use hot_sot.Money.Amount.{ok}
use hot_sot.Money.AmountLaws.{make_pos}
use hot_sot.Compensation.Engine.{
  Reason, rule, Compensation, calculate_compensation, max_compensation_amount, GatewayReply,
}
use hot_sot.Compensation.Trigger.{Case, trigger_compensation, total, settle}
use hot_sot.Compensation.Bounds.{
  cap_ℕ, calculate_compensation_aggregate, calculate_compensation_full,
  calculate_compensation_bounds,
}

-- Claims on one order, each with the sum of what the ones before were granted.
pub grant_all : ℕ → ℕ → ℤ → List Reason → ℤ
grant_all d n so_far [] = so_far
grant_all d n so_far (r ∷ rs) =
    grant_all d n ((calculate_compensation d r (pos n) (some so_far)).amount +ℤ so_far) rs

nonneg_cases : (z : ℤ) → pos 0 ≤ℤ z → (n : ℕ) × (z ≡ pos n)
nonneg_cases (pos n) h = (n, refl)
nonneg_cases (negsuc n) h = absurd (omega arith)

granted_next :
    (d n e : ℕ) (r : Reason)
    → e ≤ cap_ℕ d n
    → (t : ℕ) × ((calculate_compensation d r (pos n) (some (pos e))).amount +ℤ pos e ≡ pos t)
      × (t ≤ cap_ℕ d n)
granted_next d n e r h =
    let amount = (calculate_compensation d r (pos n) (some (pos e))).amount in
    let low : pos 0 ≤ℤ amount +ℤ pos e =
      omega (int_laws, (calculate_compensation_bounds d n r (some e)).0) in
    let (t, same) = nonneg_cases (amount +ℤ pos e) low in
    (
      t,
      same,
      omega (
        arith,
        (subst (λ z. z ≤ℤ pos (cap_ℕ d n)) same (calculate_compensation_aggregate d n e r h)),
      ),
    )

grant_from :
    (d n e : ℕ) (rs : List Reason)
    → e ≤ cap_ℕ d n
    → (t : ℕ) × (grant_all d n (pos e) rs ≡ pos t) × (t ≤ cap_ℕ d n)
unfolding grant_all
grant_from d n e [] h = (e, refl, h)
grant_from d n e (r ∷ rs) h =
    let (t, same, fits) = granted_next d n e r h in
    let rest = grant_from d n t rs fits in
    (rest.0, ap (λ z. grant_all d n z rs) same ∙ rest.1, rest.2)

-- However many claims one order has, the compensation engine grants them together at most the smaller
-- of the order's amount and 5000 rupees, if each is told what the ones before were granted.
pub grant_all_capped :
    (d n : ℕ) (rs : List Reason) → (t : ℕ) × (grant_all d n (pos 0) rs ≡ pos t) × (t ≤ cap_ℕ d n)
grant_all_capped d n rs = grant_from d n 0 rs (omega arith)

regroup : (a b c : ℤ) → a +ℤ (b +ℤ c) ≡ a +ℤ b +ℤ c
regroup a b c = omega int_laws

twice : (a : ℤ) (k : ℕ) → a +ℤ pos k +ℤ pos k ≡ a +ℤ pos (k + k)
twice a k = omega int_laws

settle-amount :
    (r : Reason) (c : Compensation) (reply : GatewayReply) → (settle r c reply).amount ≡ c.amount
settle-amount r c reply = ground arith

total-append : (cs : List Case) (c : Case) → total (cs ++ c ∷ []) ≡ total cs +ℤ c.amount
unfolding total
total-append [] c = omega int_laws
total-append (b ∷ cs) c =
    ap (λ z. b.amount +ℤ z) (total-append cs c) ∙ regroup b.amount (total cs) c.amount

trigger_total :
    (cases : List Case) (r : Reason) (k : ℕ) (reply : GatewayReply)
    → (cs : List Case) × (trigger_compensation cases r (finite (pos k) 2) reply ≡ ok cs)
      × (total cs ≡ total cases +ℤ (calculate_compensation 1 r (pos k) none).amount)
unfolding trigger_compensation
trigger_total cases r k reply =
    let comp : Compensation = calculate_compensation 1 r (pos k) none in
    (
      cases ++ settle r comp reply ∷ [],
      rw make_pos,
      total-append cases (settle r comp reply)
          ∙ ap (λ z. total cases +ℤ z) (settle-amount r comp reply),
    )

-- The route passes no earlier compensation on: two claims of a full refund for the same order of up to
-- 5000 rupees are granted twice its amount.
pub trigger_compensation_twice :
    (cases : List Case) (r : Reason) (k : ℕ) (first second : GatewayReply)
    → k ≤ max_compensation_amount
    → (rule r).percentage ≡ 100
    → (cs cs' : List Case) × (trigger_compensation cases r (finite (pos k) 2) first ≡ ok cs)
      × (trigger_compensation cs r (finite (pos k) 2) second ≡ ok cs')
      × (total cs' ≡ total cases +ℤ pos (k + k))
trigger_compensation_twice cases r k first second small full =
    let (cs, one, sum) = trigger_total cases r k first in
    let (cs', two, sum') = trigger_total cs r k second in
    let grants : (calculate_compensation 1 r (pos k) none).amount ≡ pos k =
      subst (λ n. (calculate_compensation 1 r (pos n) none).amount ≡ pos n) (mul-one k)
        (calculate_compensation_full 1 k r (omega arith) small full) in
    (
      cs,
      cs',
      one,
      two,
      sum'
          ∙ ap (λ z. total cs +ℤ z) grants
          ∙ ap (λ z. z +ℤ pos k) (sum ∙ ap (λ z. total cases +ℤ z) grants)
          ∙ twice (total cases) k,
    )
