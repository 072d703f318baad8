-- ===== src/RedisClient/Probes.antt =====
-- What a tripped breaker lets through (shared/utils/redis_client.py, shared/circuit_breaker.py).
use hot_sot.Base.{
  and-left, and-right, ℕ, ◌+◌, ◌≤◌, ◌≡◌, Bool, true, false, ◌&&◌, Option, none, some, List, [], ◌∷◌,
  if◌then◌else◌, ◌==◌, arith,
}
use hot_sot.Breaker.Core.{CircuitBreaker, allow_request, record_success, record_failure}
use hot_sot.Breaker.Trip.{IsTripped}
use hot_sot.RedisClient.Server.{lock_key, cache_key, Server}
use hot_sot.RedisClient.Client.{
  Link, no_client, up, refuses, loses, Moment, State, Reply, guarded, unguarded, admitted, parsed,
  read_as, set_nx, extend_lock_script, release_lock_script, acquire_distributed_lock,
  release_distributed_lock, extend_distributed_lock, cache_delete, publish, cache_set, cache_get,
}
use hot_sot.RedisClient.Run.{
  Op, acquire, extend, release, write, read, delete, message, Call, every, perform, step,
}

-- The tripped breaker and the room that its probes have left.
record Spent (b c : CircuitBreaker) (used : ℕ) : Type 0 where
  state_kept : c.state ≡ b.state
  max_kept : c.half_open_max_requests ≡ b.half_open_max_requests
  probes : c.half_open_request_count ≡ b.half_open_request_count + used
  fits : c.half_open_request_count ≤ b.half_open_max_requests

-- The breaker reads the clock once in the admission of a call.
abbrev pub one_reading : Moment → Bool
one_reading m =
    (m.readings.at_state == m.readings.at_test) && (m.readings.at_test == m.readings.at_change)

allow-Spent :
    (b : CircuitBreaker) (m : Moment)
    → IsTripped b
    → b.half_open_request_count ≤ b.half_open_max_requests
    → one_reading m ≡ true
    → Spent b (allow_request b m.readings).0 (if (allow_request b m.readings).1 then 1 else 0)
unfolding allow_request
allow-Spent b m t h g = ground arith

success-Spent :
    (b c : CircuitBreaker) (used at : ℕ)
    → IsTripped b
    → Spent b c used
    → Spent b (record_success c at) used
unfolding record_success
success-Spent b c used at t s = ground arith

failure-Spent :
    (b c : CircuitBreaker) (used at at' : ℕ)
    → IsTripped b
    → Spent b c used
    → Spent b (record_failure c at at') used
unfolding record_failure
failure-Spent b c used at at' t s = ground arith

abbrev admits_call : CircuitBreaker → Moment → ℕ
admits_call b m = if (allow_request b m.readings).1 then 1 else 0

module _ {S : Type 0} (redis : Server S) where
  guarded-Spent :
      {X : Type 0} (d : X) (command : S → S × X) (m : Moment) (link : Link) (st : State S)
      → IsTripped st.breaker
      → st.breaker.half_open_request_count ≤ st.breaker.half_open_max_requests
      → one_reading m ≡ true
      → Spent st.breaker (guarded redis d command m link st).0.breaker (admits_call st.breaker m)
  guarded-Spent {X} d command m link st t h g =
      go link (allow_request st.breaker m.readings) (allow-Spent st.breaker m t h g)
    where
      go :
          (link : Link) (x : CircuitBreaker × Bool)
          → Spent st.breaker x.0 (if x.1 then 1 else 0)
          → Spent st.breaker
              (admitted redis d command m link st.server x).0.breaker
              (if x.1 then 1 else 0)
      go link (b, false) s = s
      go no_client (b, true) s = failure-Spent st.breaker b 1 m.at_failure m.at_change t s
      go up (b, true) s = success-Spent st.breaker b 1 m.at_success t s
      go refuses (b, true) s = failure-Spent st.breaker b 1 m.at_failure m.at_change t s
      go loses (b, true) s = failure-Spent st.breaker b 1 m.at_failure m.at_change t s

  unguarded-Spent :
      {X : Type 0} (d : X) (command : S → S × X) (link : Link) (st : State S)
      → st.breaker.half_open_request_count ≤ st.breaker.half_open_max_requests
      → Spent st.breaker (unguarded redis d command link st).0.breaker 0
  unguarded-Spent d command no_client st h = ground arith
  unguarded-Spent d command up st h = ground arith
  unguarded-Spent d command refuses st h = ground arith
  unguarded-Spent d command loses st h = ground arith

  guarded-granted :
      (command : S → S × Bool) (m : Moment) (link : Link) (st : State S)
      → (if (guarded redis false command m link st).1 then 1 else 0) ≤ admits_call st.breaker m
  guarded-granted command m link st = go link (allow_request st.breaker m.readings)
    where
      go :
          (link : Link) (x : CircuitBreaker × Bool)
          → (if (admitted redis false command m link st.server x).1 then 1 else 0)
            ≤ (if x.1 then 1 else 0)
      go link (b, false) = omega arith
      go no_client (b, true) = omega arith
      go up (b, true) = ground arith
      go refuses (b, true) = omega arith
      go loses (b, true) = omega arith

module _ {S A : Type 0} (redis : Server S) (dumps : A → ℕ) (loads : ℕ → Option A) where
  parsed-Spent :
      (b : CircuitBreaker) (used : ℕ) (m : Moment) (r : Reply S (Option ℕ))
      → IsTripped b
      → Spent b r.0.breaker used
      → Spent b (parsed redis dumps loads m r).0.breaker used
  parsed-Spent b used m (st, none) t s = s
  parsed-Spent b used m (st, some text) t s = go (loads text)
    where
      go : (x : Option A) → Spent b (read_as redis dumps loads m st x).0.breaker used
      go none = failure-Spent b st.breaker used m.at_failure m.at_change t s
      go (some a) = s

  -- Whether a call is answered with a lock.
  abbrev granted : Op A → Moment → Link → State S → Bool
  granted (acquire key value ttl) m link st =
      (acquire_distributed_lock redis key value ttl m link st).1
  granted _ m link st = false

  -- How many of the calls are answered with a lock.
  unfoldable pub grants : List (Call A) → State S → ℕ
  grants [] st = 0
  grants (c ∷ cs) st =
      let rest = grants cs (step redis dumps loads c st) in
      (if granted c.op c.moment c.link st then 1 else 0) + rest

  abbrev used : Op A → Moment → State S → ℕ
  used (release key value) m st = 0
  used (extend key value ttl) m st = 0
  used _ m st = admits_call st.breaker m

  perform-Spent :
      (op : Op A) (m : Moment) (link : Link) (st : State S)
      → IsTripped st.breaker
      → st.breaker.half_open_request_count ≤ st.breaker.half_open_max_requests
      → one_reading m ≡ true
      → Spent st.breaker (perform redis dumps loads op m link st).breaker (used op m st)
  unfolding acquire_distributed_lock extend_distributed_lock release_distributed_lock cache_set
      cache_get cache_delete publish
  perform-Spent (acquire key value ttl) m link st t h g =
      guarded-Spent redis false (set_nx redis (lock_key key) value ttl m.now) m link st t h g
  perform-Spent (extend key value ttl) m link st t h g =
      unguarded-Spent redis false (extend_lock_script redis (lock_key key) value ttl m.now) link st
        h
  perform-Spent (release key value) m link st t h g =
      unguarded-Spent redis false (release_lock_script redis (lock_key key) value m.now) link st h
  perform-Spent (write key value ttl prefix) m link st t h g =
      guarded-Spent redis false
        (λ s. (redis.set s (cache_key prefix key) (dumps value) ttl m.now, true)) m link st t h g
  perform-Spent (read key prefix) m link st t h g =
      parsed-Spent st.breaker (admits_call st.breaker m) m
        (guarded redis none (λ s. (s, redis.get s (cache_key prefix key) m.now)) m link st) t
        (guarded-Spent redis none (λ s. (s, redis.get s (cache_key prefix key) m.now)) m link st t h
          g)
  perform-Spent (delete key prefix) m link st t h g =
      guarded-Spent redis false (λ s. (redis.del s (cache_key prefix key), true)) m link st t h g
  perform-Spent message m link st t h g = guarded-Spent redis false (λ s. (s, true)) m link st t h g

  granted-used :
      (op : Op A) (m : Moment) (link : Link) (st : State S)
      → (if granted op m link st then 1 else 0) ≤ used op m st
  unfolding acquire_distributed_lock
  granted-used (acquire key value ttl) m link st =
      guarded-granted redis (set_nx redis (lock_key key) value ttl m.now) m link st
  granted-used (extend key value ttl) m link st = omega arith
  granted-used (release key value) m link st = omega arith
  granted-used (write key value ttl prefix) m link st = omega arith
  granted-used (read key prefix) m link st = omega arith
  granted-used (delete key prefix) m link st = omega arith
  granted-used message m link st = omega arith

  -- From a tripped breaker on, all calls of all clients together are answered with at most as many locks as
  -- the breaker has probes left, also when Redis answers again; each call reads the clock once.
  pub grants_tripped :
      (cs : List (Call A)) (st : State S)
      → IsTripped st.breaker
      → st.breaker.half_open_request_count ≤ st.breaker.half_open_max_requests
      → every (λ c. one_reading c.moment) cs ≡ true
      → grants cs st + st.breaker.half_open_request_count ≤ st.breaker.half_open_max_requests
  unfolding grants
  grants_tripped [] st t h g = omega (arith, h)
  grants_tripped (c ∷ cs) st t h g =
      let s =
        perform-Spent c.op c.moment c.link st t h
          (and-left (one_reading c.moment) (every (λ d. one_reading d.moment) cs) g) in
      let st' = step redis dumps loads c st in
      let rest =
        grants_tripped cs st' (ground (arith, s.state_kept)) (omega (arith, s.fits, s.max_kept))
          (and-right (one_reading c.moment) (every (λ d. one_reading d.moment) cs) g) in
      omega (arith, rest, s.max_kept, s.probes, granted-used c.op c.moment c.link st)
