-- ===== src/Gateway/Retry.antt =====
-- Which attempt decides a request, and what the attempts cost
-- (`RazorpayGateway._make_request` of shared/payment_gateway.py).
use native.Mathlib.Nat.{pow-succ'}
use hot_sot.Base.{
  ℕ, zero, suc, ◌+◌, ◌*◌, ◌^◌, ◌≤◌, ◌<◌, ◌≡◌, refl, Option, none, some, leb, ◌==◌, if◌then◌else◌,
  arith, ap, inl, inr, ◌⊎◌,
}
use hot_sot.Gateway.Http.{
  request_timeout, http_error, post, Attempt, answered, timeout, transport_error, Failure, Reply,
  raises, finished, retried, one_pass, retry, make_request, exceeded, read_json, refused,
}

-- The reply that an attempt decides, if it does: 200, and from 400 on all but 429.
unfoldable pub decides : Attempt → Option Reply
decides timeout = none
decides transport_error = none
decides (answered r) =
    if r.status_code == 200
    then some (read_json r.json)
    else if r.status_code == 429
    then none
    else if leb 400 r.status_code
    then some (refused r)
    else none

decided :
    (a : ℕ) (e : Option Failure) (x : Attempt) (r : Reply)
    → decides x ≡ some r
    → one_pass a e x ≡ finished r
unfolding decides one_pass
decided a e timeout r h = absurd cc
decided a e transport_error r h = absurd cc
decided a e (answered x) r h = ground arith

wait : ℕ → Attempt → ℕ
wait a timeout = 2 ^ a
wait a transport_error = 2 ^ a
wait a (answered r) = if r.status_code == 429 then 2 ^ (a + 2) else 0

last : Option Failure → Attempt → Option Failure
last e timeout = some request_timeout
last e transport_error = some http_error
last e (answered r) = e

undecided :
    (a : ℕ) (e : Option Failure) (x : Attempt)
    → decides x ≡ none
    → one_pass a e x ≡ retried (wait a x) (last e x)
unfolding decides one_pass wait last
undecided a e timeout h = refl
undecided a e transport_error h = refl
undecided a e (answered x) h = ground arith

four_times : (a : ℕ) → 2 ^ (a + 2) ≡ 4 * 2 ^ a
four_times a =
    let two : a + 2 ≡ suc (suc a) = omega arith in rw (two, pow-succ', pow-succ') (omega arith)

wait_le : (a : ℕ) (x : Attempt) → wait a x ≤ 4 * 2 ^ a
unfolding wait
wait_le a timeout = omega arith
wait_le a transport_error = omega arith
wait_le a (answered r) = ground (arith, four_times a)

split : (a i : ℕ) → a ≤ i → (a ≡ i) ⊎ (a < i)
split a i h = ground arith

retry_first :
    (http : ℕ → Attempt) (left a i : ℕ) (e : Option Failure) (r : Reply)
    → a ≤ i
    → i < a + left
    → ((j : ℕ) → j < i → decides (http j) ≡ none)
    → decides (http i) ≡ some r
    → ((retry http left a e).reply ≡ r) × ((retry http left a e).sent + a ≡ suc i)
unfolding retry
retry_first http zero a i e r low high before now = absurd (omega arith)
retry_first http (suc left) a i e r low high before now = elim (split a i low) [
  | inl here ↦ rw (retry, decided a e (http a) r (rw here now)) (refl, omega arith)
  | inr later ↦
      let rest =
        retry_first http left (suc a) i (last e (http a)) r (omega arith) (omega arith) before
          now in
      rw (retry, undecided a e (http a) (before a later)) (rest.0, omega (arith, rest.1))
]

abbrev pub IsRaised : Reply → Type 0
IsRaised r = (e : Failure) × (r ≡ raises e)

retry_exhausted :
    (http : ℕ → Attempt) (left a : ℕ) (e : Option Failure)
    → ((j : ℕ) → j < a + left → decides (http j) ≡ none)
    → ((retry http left a e).sent ≡ left)
      × ((retry http left a e).slept + 4 * 2 ^ a ≤ 4 * 2 ^ (a + left))
      × IsRaised (retry http left a e).reply
unfolding retry
retry_exhausted http zero a e never = (refl, grind arith, (exceeded e, refl))
retry_exhausted http (suc left) a e never =
    let shift : a + suc left ≡ suc a + left = omega arith in
    let (sent, slept, failed) =
      retry_exhausted http left (suc a) (last e (http a)) (λ j h. never j (omega arith)) in
    rw (retry, undecided a e (http a) (never a (omega arith)))
      (
        omega (arith, sent),
        omega (arith, slept, wait_le a (http a), pow-succ' 2 a, ap (λ n. 2 ^ n) shift),
        failed,
      )

-- The first attempt that the provider answers with 200, or with 400 or more other than 429, decides the
-- reply of a request, if it is among the attempts allowed; nothing is sent after it.
pub make_request_first :
    (http : ℕ → Attempt) (max_retries i : ℕ) (r : Reply)
    → i < max_retries
    → ((j : ℕ) → j < i → decides (http j) ≡ none)
    → decides (http i) ≡ some r
    → ((make_request post http max_retries).reply ≡ r)
      × ((make_request post http max_retries).sent ≡ suc i)
unfolding make_request
make_request_first http max_retries i r l before now =
    let found = retry_first http max_retries 0 i none r (omega arith) (omega arith) before now in
    (found.0, omega (arith, found.1))

-- Where no attempt decides, since each meets a failure of the transport, 429, or any status below 400
-- but 200, the request is sent exactly as often as allowed, then raises, and has slept at most
-- 2 ^ (n + 2) - 4 seconds for n attempts: a POST that is answered with 201 is sent again.
pub make_request_exhausted :
    (http : ℕ → Attempt) (max_retries : ℕ)
    → ((j : ℕ) → j < max_retries → decides (http j) ≡ none)
    → ((make_request post http max_retries).sent ≡ max_retries)
      × ((make_request post http max_retries).slept + 4 ≤ 4 * 2 ^ max_retries)
      × IsRaised (make_request post http max_retries).reply
unfolding make_request
make_request_exhausted http max_retries never =
    let (sent, slept, failed) =
      retry_exhausted http max_retries 0 none (λ j h. never j (omega arith)) in
    (sent, grind (arith, slept), failed)
