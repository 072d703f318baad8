-- ===== src/Gateway/Once.antt =====
-- What the idempotency store promises
-- (`RazorpayGateway` of shared/payment_gateway.py).
use hot_sot.Base.{
  ℕ, ◌≡◌, refl, sym, ap, ◌∙◌, true, Option, none, some, List, [], ◌∷◌, ◌==◌, if◌then◌else◌, arith,
  inl, inr, ◌⊎◌, Option-cases, Bool-cases,
}
use hot_sot.Base.Int.{ℤ}
use hot_sot.Money.Rounding.{paise}
use hot_sot.Gateway.Http.{
  Body, empty_object, object, Status, Reply, returns, raises, Failure, Outcome,
}
use hot_sot.Gateway.Api.{
  Store, find, insert, RazorpayGateway, request, usable, check_idempotency, store_idempotency, once,
  Call, perform, to_paise, answer, with_amount,
}

same-eq : (k : ℕ) → (k == k) ≡ true
same-eq k = ground arith

returned_body : Reply → Body
returned_body (returns b) = b
returned_body (raises e) = empty_object

returns_injective : {b c : Body} → returns b ≡ returns c → b ≡ c
unfolding returned_body
returns_injective h = ap returned_body h

-- Calls in order, each with its idempotency key.
unfoldable pub performs : RazorpayGateway → List (Option ℕ × Call) → RazorpayGateway
performs g [] = g
performs g ((key, c) ∷ cs) = performs (perform g key c).0 cs

-- The store holds a usable result for a key.
abbrev pub Holds : RazorpayGateway → ℕ → Body → Type 0
Holds g k b = usable (find k g.idempotency_store) ≡ some b

find-insert :
    (j k : ℕ) (b : Body) (s : Store) → find j (insert k b s) ≡ (if j == k then some b else find j s)
find-insert j k b [] = refl
find-insert j k b ((l, old) ∷ s) = ground (arith, find-insert j k b s)

-- Storing a result under a key that held none usable leaves the others alone.
store-Holds :
    (g : RazorpayGateway) (j k : ℕ) (r : Reply) (b : Body)
    → usable (find j g.idempotency_store) ≡ none
    → Holds g k b
    → Holds (store_idempotency g (some j) r) k b
store-Holds g j k (raises e) b free h = h
store-Holds g j k (returns c) b free h = elim (Bool-cases (k == j)) [
  | inl same ↦
      let e : k ≡ j = ground arith in
      let clash : none ≡ some b =
        sym free ∙ ap (λ n. usable (find n g.idempotency_store)) (sym e) ∙ h in
      absurd cc
  | inr other ↦ rw (find-insert, other) h
]

answer-Holds :
    (g : RazorpayGateway) (key : Option ℕ) (o : Outcome) (k : ℕ) (b : Body)
    → Holds g k b
    → Holds (answer g key o (check_idempotency g key)).0 k b
unfolding check_idempotency
answer-Holds g none o k b h = h
answer-Holds g (some j) o k b h = elim (Option-cases (usable (find j g.idempotency_store))) [
  | inl free ↦ rw free (store-Holds g j k o.reply b free h)
  | inr (cached, same) ↦ rw same h
]

with_amount-Holds :
    (g : RazorpayGateway) (key : Option ℕ) (c : Call) (x : Failure ⊎ ℤ) (k : ℕ) (b : Body)
    → Holds g k b
    → Holds (with_amount g key c x).0 k b
unfolding once
with_amount-Holds g key c (inl e) k b h = h
with_amount-Holds g key c (inr a) k b h =
    answer-Holds g key (request g c.operation a c.mock_id c.http) k b h

performs-Holds :
    (g : RazorpayGateway) (cs : List (Option ℕ × Call)) (k : ℕ) (b : Body)
    → Holds g k b
    → Holds (performs g cs) k b
unfolding performs perform
performs-Holds g [] k b h = h
performs-Holds g ((key, c) ∷ cs) k b h =
    performs-Holds (perform g key c).0 cs k b (with_amount-Holds g key c (to_paise c.amount) k b h)

-- A held result answers at once.
perform-cached :
    (g : RazorpayGateway) (k : ℕ) (c : Call) (a : ℤ) (b : Body)
    → to_paise c.amount ≡ inr a
    → Holds g k b
    → perform g (some k) c ≡ (g, record { reply = returns b; sent = 0; slept = 0 })
unfolding perform once check_idempotency
perform-cached g k c a b whole h = rw (whole, h)

-- A result other than the empty object is held once a call has returned it.
answer-stored :
    (g : RazorpayGateway) (k : ℕ) (o : Outcome) (cached : Option Body) (i : ℕ) (m : Option ℤ)
    (t : Option Status)
    → usable (find k g.idempotency_store) ≡ cached
    → (answer g (some k) o cached).1.reply ≡ returns (object i m t)
    → Holds (answer g (some k) o cached).0 k (object i m t)
answer-stored g k o none i m t free h = rw (h, find-insert, same-eq)
answer-stored g k o (some b) i m t same h = same ∙ ap some (returns_injective h)

stored :
    (g : RazorpayGateway) (k : ℕ) (c : Call) (x : Failure ⊎ ℤ) (i : ℕ) (m : Option ℤ)
    (t : Option Status)
    → (with_amount g (some k) c x).1.reply ≡ returns (object i m t)
    → Holds (with_amount g (some k) c x).0 k (object i m t)
unfolding once check_idempotency
stored g k c (inl e) i m t h = absurd cc
stored g k c (inr a) i m t h =
    answer-stored g k (request g c.operation a c.mock_id c.http)
      (usable (find k g.idempotency_store)) i m t refl h

-- After a call under a key has returned an object, and whatever calls come in between, every further
-- call under that key with a finite amount returns the same object, sends nothing and changes nothing,
-- even with another operation or another amount.
pub perform_once :
    (g : RazorpayGateway) (k : ℕ) (first : Call) (i : ℕ) (m : Option ℤ) (t : Option Status)
    (between : List (Option ℕ × Call)) (second : Call) (a : ℤ)
    → (perform g (some k) first).1.reply ≡ returns (object i m t)
    → second.amount ≡ paise a
    → perform (performs (perform g (some k) first).0 between) (some k) second ≡ (
      performs (perform g (some k) first).0 between,
      record { reply = returns (object i m t); sent = 0; slept = 0 },
    )
unfolding perform to_paise
perform_once g k first i m t between second a returned whole =
    let g' = performs (perform g (some k) first).0 between in
    let held =
      performs-Holds (perform g (some k) first).0 between k (object i m t)
        (stored g k first (to_paise first.amount) i m t returned) in
    perform-cached g' k second a (object i m t) (ap to_paise whole) held
