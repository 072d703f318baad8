-- ===== src/RedisClient/Client.antt =====
-- `class RedisClient` of shared/utils/redis_client.py over a Redis server, with the circuit breaker that all
-- clients share. What happens to the commands of a call, and its readings of the clocks, are arguments.
use hot_sot.Base.{ℕ, Bool, true, false, Option, none, some, ◌==◌, if◌then◌else◌}
use hot_sot.Breaker.Core.{CircuitBreaker, Readings, allow_request, record_success, record_failure}
use hot_sot.RedisClient.Server.{Key, lock_key, cache_key, Server}

-- No client; an answer; an error before the command; an error after it, where the answer is lost.
pub data Link : Type 0 where
  no_client up refuses loses : Link

-- The readings of one call: by the breaker, and by the server.
pub record Moment : Type 0 where
  pub readings : Readings
  pub at_success : ℕ
  pub at_failure : ℕ
  pub at_change : ℕ
  pub now : ℕ

pub record State (S : Type 0) : Type 0 where
  pub server : S
  pub breaker : CircuitBreaker

-- The state and the value that a call returns.
abbrev pub Reply : Type 0 → Type 0 → Type 0
Reply S A = State S × A

abbrev is_text : ℕ → Option ℕ → Bool
is_text v none = false
is_text v (some t) = v == t

abbrev pub is_none : Option ℕ → Bool
is_none none = true
is_none (some t) = false

module _ {S : Type 0} (redis : Server S) where
  -- SET with NX and EX.
  abbrev pub set_nx : Key → ℕ → ℕ → ℕ → S → S × Bool
  set_nx k v ttl now s =
      if is_none (redis.get s k now) then (redis.set s k v ttl now, true) else (s, false)

  -- _RELEASE_LOCK_SCRIPT
  abbrev pub release_lock_script : Key → ℕ → ℕ → S → S × Bool
  release_lock_script k v now s =
      if is_text v (redis.get s k now) then (redis.del s k, true) else (s, false)

  -- _EXTEND_LOCK_SCRIPT
  abbrev pub extend_lock_script : Key → ℕ → ℕ → ℕ → S → S × Bool
  extend_lock_script k v seconds now s =
      if is_text v (redis.get s k now) then (redis.expire s k seconds now, true) else (s, false)

  -- A command under the breaker once it has let the call through, and its answer to the caller where
  -- nothing fails; `d` is what the caller gets where something does.
  abbrev attempt : {A : Type 0} → A → (S → S × A) → Moment → Link → S → CircuitBreaker → Reply S A
  attempt d command m no_client s b =
      (record { server = s; breaker = record_failure b m.at_failure m.at_change }, d)
  attempt d command m up s b =
      (record { server = (command s).0; breaker = record_success b m.at_success }, (command s).1)
  attempt d command m refuses s b =
      (record { server = s; breaker = record_failure b m.at_failure m.at_change }, d)
  attempt d command m loses s b =
      (record { server = (command s).0; breaker = record_failure b m.at_failure m.at_change }, d)

  abbrev pub admitted :
      {A : Type 0} → A → (S → S × A) → Moment → Link → S → CircuitBreaker × Bool → Reply S A
  admitted d command m link s (b, true) = attempt d command m link s b
  admitted d command m link s (b, false) = (record { server = s; breaker = b }, d)

  -- A call that asks the breaker first.
  abbrev pub guarded : {A : Type 0} → A → (S → S × A) → Moment → Link → State S → Reply S A
  guarded d command m link st =
      admitted d command m link st.server (allow_request st.breaker m.readings)

  -- A call of a script, which does not ask the breaker and tells it nothing.
  abbrev pub unguarded : {A : Type 0} → A → (S → S × A) → Link → State S → Reply S A
  unguarded d command no_client st = (st, d)
  unguarded d command up st = (record st { server = (command st.server).0 }, (command st.server).1)
  unguarded d command refuses st = (st, d)
  unguarded d command loses st = (record st { server = (command st.server).0 }, d)

  unfoldable pub acquire_distributed_lock : ℕ → ℕ → ℕ → Moment → Link → State S → Reply S Bool
  acquire_distributed_lock key value ttl m link st =
      guarded false (set_nx (lock_key key) value ttl m.now) m link st

  unfoldable pub release_distributed_lock : ℕ → ℕ → Moment → Link → State S → Reply S Bool
  release_distributed_lock key value m link st =
      unguarded false (release_lock_script (lock_key key) value m.now) link st

  unfoldable pub extend_distributed_lock : ℕ → ℕ → ℕ → Moment → Link → State S → Reply S Bool
  extend_distributed_lock key value additional_ttl m link st =
      unguarded false (extend_lock_script (lock_key key) value additional_ttl m.now) link st

  unfoldable pub cache_delete : ℕ → ℕ → Moment → Link → State S → Reply S Bool
  cache_delete key prefix m link st =
      guarded false (λ s. (redis.del s (cache_key prefix key), true)) m link st

  -- `publish`, whose message reaches whoever listens and leaves no key.
  unfoldable pub publish : Moment → Link → State S → Reply S Bool
  publish m link st = guarded false (λ s. (s, true)) m link st

  -- The keys `{tenant_id}:shelf:{shelf_id}` by a numbering of the pairs.
  module _ (shelf_key : ℕ → ℕ → ℕ) where
    unfoldable pub acquire_shelf_lock : ℕ → ℕ → ℕ → ℕ → Moment → Link → State S → Reply S Bool
    unfolding acquire_distributed_lock
    acquire_shelf_lock shelf_id order_id ttl tenant_id m link st =
        acquire_distributed_lock (shelf_key tenant_id shelf_id) order_id ttl m link st

    unfoldable pub release_shelf_lock : ℕ → ℕ → ℕ → Moment → Link → State S → Reply S Bool
    unfolding release_distributed_lock
    release_shelf_lock shelf_id order_id tenant_id m link st =
        release_distributed_lock (shelf_key tenant_id shelf_id) order_id m link st

    unfoldable get_shelf_occupant : ℕ → ℕ → Moment → Link → State S → Option ℕ
    get_shelf_occupant shelf_id tenant_id m no_client st = none
    get_shelf_occupant shelf_id tenant_id m up st =
        redis.get st.server (lock_key (shelf_key tenant_id shelf_id)) m.now
    get_shelf_occupant shelf_id tenant_id m refuses st = none
    get_shelf_occupant shelf_id tenant_id m loses st = none

  -- The values of the cache, by `json.dumps` and by `json.loads`, which fails on other texts.
  module _ {A : Type 0} (dumps : A → ℕ) (loads : ℕ → Option A) where
    unfoldable pub cache_set : ℕ → A → ℕ → ℕ → Moment → Link → State S → Reply S Bool
    cache_set key value ttl prefix m link st =
        guarded false (λ s. (redis.set s (cache_key prefix key) (dumps value) ttl m.now, true)) m
          link st

    -- A text that is no JSON counts as a failure, after the success of the command was recorded.
    abbrev pub read_as : Moment → State S → Option A → Reply S (Option A)
    read_as m st none =
        (record st { breaker = record_failure st.breaker m.at_failure m.at_change }, none)
    read_as m st (some a) = (st, some a)

    abbrev pub parsed : Moment → Reply S (Option ℕ) → Reply S (Option A)
    parsed m (st, none) = (st, none)
    parsed m (st, some text) = read_as m st (loads text)

    unfoldable pub cache_get : ℕ → ℕ → Moment → Link → State S → Reply S (Option A)
    cache_get key prefix m link st =
        parsed m (guarded none (λ s. (s, redis.get s (cache_key prefix key) m.now)) m link st)
