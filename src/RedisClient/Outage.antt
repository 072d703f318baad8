-- ===== src/RedisClient/Outage.antt =====
-- What is left of Redis after an outage (shared/utils/redis_client.py, shared/circuit_breaker.py).
use hot_sot.Base.{
  and-left, and-right, ℕ, suc, ◌+◌, ◌≤◌, ◌<◌, ◌≡◌, refl, sym, ap, subst, ◌∙◌, Bool, true, false,
  not, ◌&&◌, Option, none, some, List, [], ◌∷◌, length, arith,
}
use hot_sot.Breaker.Core.{
  CircuitBreaker, allow_request, record_failure, closed, state_at, transition_to, changed,
}
use hot_sot.Breaker.Trip.{IsTripped}
use hot_sot.RedisClient.Server.{lock_key, cache_key, Server}
use hot_sot.RedisClient.Client.{
  Link, no_client, up, refuses, loses, Moment, State, Reply, guarded, admitted, parsed, set_nx,
  acquire_distributed_lock, release_distributed_lock, extend_distributed_lock, cache_delete,
  publish, cache_set, cache_get,
}
use hot_sot.RedisClient.Grant.{answered}
use hot_sot.RedisClient.Run.{
  Op, acquire, extend, release, write, read, delete, message, Call, every, perform, step, run,
}
use hot_sot.RedisClient.Probes.{one_reading, grants, grants_tripped}

-- A call that asks the breaker and whose command Redis does not answer.
abbrev pub fails : {A : Type 0} → Call A → Bool
fails c =
    elim c.op [ release j w ↦ false | extend j w s ↦ false | _ ↦ true ] && not (answered c.link)

-- CLOSED with a number of failures counted, and room for probes.
record Counting (b : CircuitBreaker) (n limit : ℕ) : Type 0 where
  is_closed : b.state ≡ closed
  counted : b.failure_count ≡ n
  threshold : b.failure_threshold ≡ limit
  room : b.half_open_request_count ≤ b.half_open_max_requests

failure-Counting :
    (b : CircuitBreaker) (n limit at at' : ℕ)
    → Counting b n limit
    → suc n < limit
    → Counting (record_failure b at at') (suc n) limit
unfolding record_failure
failure-Counting b n limit at at' c h = ground arith

failure-trips :
    (b : CircuitBreaker) (n limit at at' : ℕ)
    → Counting b n limit
    → suc n ≡ limit
    → IsTripped (record_failure b at at')
      × ((record_failure b at at').half_open_request_count
          ≤ (record_failure b at at').half_open_max_requests)
unfolding record_failure transition_to changed
failure-trips b n limit at at' c h = ground arith

-- What such a call leaves of a CLOSED breaker.
module _ {S : Type 0} (redis : Server S) where
  guarded-fails :
      {X : Type 0} (d : X) (command : S → S × X) (m : Moment) (link : Link) (st : State S)
      → st.breaker.state ≡ closed
      → not (answered link) ≡ true
      → (guarded redis d command m link st).0.breaker
        ≡ record_failure st.breaker m.at_failure m.at_change
  unfolding allow_request state_at
  guarded-fails d command m link st c h = ground arith

  guarded-default :
      {X : Type 0} (d : X) (command : S → S × X) (m : Moment) (link : Link) (st : State S)
      → not (answered link) ≡ true
      → (guarded redis d command m link st).1 ≡ d
  guarded-default d command m link st c = go link (allow_request st.breaker m.readings) c
    where
      go :
          (link : Link) (x : CircuitBreaker × Bool)
          → not (answered link) ≡ true
          → (admitted redis d command m link st.server x).1 ≡ d
      go link (b, false) c = refl
      go no_client (b, true) c = refl
      go up (b, true) c = absurd cc
      go refuses (b, true) c = refl
      go loses (b, true) c = refl

module _ {S A : Type 0} (redis : Server S) (dumps : A → ℕ) (loads : ℕ → Option A) where
  parsed-nothing :
      (m : Moment) (r : Reply S (Option ℕ)) → r.1 ≡ none → (parsed redis dumps loads m r).0 ≡ r.0
  parsed-nothing m (st, none) e = refl
  parsed-nothing m (st, some text) e = absurd cc

  perform-fails :
      (op : Op A) (m : Moment) (link : Link) (st : State S)
      → st.breaker.state ≡ closed
      → fails (record { op = op; moment = m; link = link }) ≡ true
      → (perform redis dumps loads op m link st).breaker
        ≡ record_failure st.breaker m.at_failure m.at_change
  unfolding acquire_distributed_lock extend_distributed_lock release_distributed_lock cache_set
      cache_get cache_delete publish
  perform-fails (acquire key value ttl) m link st c f =
      guarded-fails redis false (set_nx redis (lock_key key) value ttl m.now) m link st c f
  perform-fails (extend key value ttl) m link st c f = absurd cc
  perform-fails (release key value) m link st c f = absurd cc
  perform-fails (write key value ttl prefix) m link st c f =
      guarded-fails redis false
        (λ s. (redis.set s (cache_key prefix key) (dumps value) ttl m.now, true)) m link st c f
  perform-fails (read key prefix) m link st c f =
      let r = guarded redis none (λ s. (s, redis.get s (cache_key prefix key) m.now)) m link st in
      ap (λ q. q.breaker)
        (parsed-nothing m r (
          guarded-default redis none (λ s. (s, redis.get s (cache_key prefix key) m.now)) m link st
            f))
      ∙ guarded-fails redis none (λ s. (s, redis.get s (cache_key prefix key) m.now)) m link st c f
  perform-fails (delete key prefix) m link st c f =
      guarded-fails redis false (λ s. (redis.del s (cache_key prefix key), true)) m link st c f
  perform-fails message m link st c f = guarded-fails redis false (λ s. (s, true)) m link st c f

  run-fails :
      (c : Call A) (cs : List (Call A)) (st : State S) (n limit : ℕ)
      → Counting st.breaker n limit
      → n + length (c ∷ cs) ≡ limit
      → every fails (c ∷ cs) ≡ true
      → IsTripped (run redis dumps loads (c ∷ cs) st).breaker
        × ((run redis dumps loads (c ∷ cs) st).breaker.half_open_request_count
            ≤ (run redis dumps loads (c ∷ cs) st).breaker.half_open_max_requests)
  unfolding run
  run-fails c [] st n limit k h f =
      let e = perform-fails c.op c.moment c.link st k.is_closed (and-left (fails c) true f) in
      subst (λ b. IsTripped b × (b.half_open_request_count ≤ b.half_open_max_requests)) (sym e)
        (failure-trips st.breaker n limit c.moment.at_failure c.moment.at_change k
          (omega (arith, h)))
  run-fails c (d ∷ ds) st n limit k h f =
      let e =
        perform-fails c.op c.moment c.link st k.is_closed
          (and-left (fails c) (every fails (d ∷ ds)) f) in
      run-fails d ds (step redis dumps loads c st) (suc n) limit
        (subst (λ b. Counting b (suc n) limit) (sym e)
          (failure-Counting st.breaker n limit c.moment.at_failure c.moment.at_change k
            (omega (arith, h))))
        (omega (arith, h)) (and-right (fails c) (every fails (d ∷ ds)) f)

  -- An outage: as many calls without an answer, one after the other, as the failure threshold of a CLOSED
  -- breaker. After it, any sequence of calls of all clients, one after the other and each with one reading of the
  -- clock, is answered with at most half_open_max_requests locks, however long Redis has been answering again.
  pub grants_outage :
      (c : Call A) (cs after : List (Call A)) (st : State S)
      → st.breaker.state ≡ closed
      → st.breaker.half_open_request_count ≤ st.breaker.half_open_max_requests
      → st.breaker.failure_count + length (c ∷ cs) ≡ st.breaker.failure_threshold
      → every fails (c ∷ cs) ≡ true
      → every (λ d. one_reading d.moment) after ≡ true
      → grants redis dumps loads after (run redis dumps loads (c ∷ cs) st)
        ≤ (run redis dumps loads (c ∷ cs) st).breaker.half_open_max_requests
  grants_outage c cs after st k r h f g =
      let trip =
        run-fails c cs st st.breaker.failure_count st.breaker.failure_threshold
          (record { is_closed = k; counted = refl; threshold = refl; room = r }) h f in
      omega (
        arith,
        grants_tripped redis dumps loads after (run redis dumps loads (c ∷ cs) st) trip.0 trip.1 g,
      )
