-- ===== src/RedisClient/Grant.antt =====
-- When a distributed lock is granted, and what holds while it is (shared/utils/redis_client.py).
use hot_sot.Base.{
  ℕ, ◌+◌, ◌≡◌, refl, ap, ◌∙◌, Bool, true, false, ◌&&◌, none, some, ltb, ◌==◌, if◌then◌else◌, arith,
}
use hot_sot.Breaker.Core.{CircuitBreaker, allow_request}
use hot_sot.RedisClient.Server.{lock_key, live, text_of, Server}
use hot_sot.RedisClient.Client.{
  Link, no_client, up, refuses, loses, Moment, State, is_none, set_nx, release_lock_script,
  extend_lock_script, guarded, admitted, acquire_distributed_lock, release_distributed_lock,
  extend_distributed_lock,
}

-- Whether the answer of a command reaches the caller.
abbrev pub answered : Link → Bool
answered up = true
answered _ = false

module _ {S : Type 0} (redis : Server S) where
  -- A key is locked by a text until a time.
  abbrev pub Locked : ℕ → ℕ → ℕ → S → Type 0
  Locked k v until s = redis.entry s (lock_key k) ≡ some (record { text = v; until = until })

  get-Locked :
      (k v until now : ℕ) (s : S)
      → Locked k v until s
      → ltb now until ≡ true
      → redis.get s (lock_key k) now ≡ some v
  get-Locked k v until now s l h =
      redis.get_entry s (lock_key k) now
      ∙ ap (λ x. text_of (live now x)) l
      ∙ ap (λ b. text_of (if b then some (record { text = v; until = until }) else none)) h

  pub set_nx-Locked :
      (k v until j w ttl now : ℕ) (s : S)
      → Locked k v until s
      → ltb now until ≡ true
      → Locked k v until (set_nx redis (lock_key j) w ttl now s).0
  set_nx-Locked k v until j w ttl now s l h =
      ground (
        arith,
        get-Locked k v until now s l h,
        redis.entry-set s (lock_key j) (lock_key k) w ttl now,
      )

  pub release-Locked :
      (k v until j w now : ℕ) (s : S)
      → Locked k v until s
      → ltb now until ≡ true
      → (k == j && v == w) ≡ false
      → Locked k v until (release_lock_script redis (lock_key j) w now s).0
  release-Locked k v until j w now s l h o =
      ground (arith, get-Locked k v until now s l h, redis.entry-del s (lock_key j) (lock_key k))

  pub extend-Locked :
      (k v until j w seconds now : ℕ) (s : S)
      → Locked k v until s
      → ltb now until ≡ true
      → (k == j && v == w) ≡ false
      → Locked k v until (extend_lock_script redis (lock_key j) w seconds now s).0
  extend-Locked k v until j w seconds now s l h o = ground (
    arith,
    get-Locked k v until now s l h,
    redis.entry-expire s (lock_key j) (lock_key k) seconds now,
  )

  -- SET with NX answers true exactly where the key is free, and then locks it.
  set_nx_takes :
      (k v ttl now : ℕ) (s : S)
      → (set_nx redis (lock_key k) v ttl now s).1 ≡ is_none (redis.get s (lock_key k) now)
  set_nx_takes k v ttl now s = ground arith

  set_nx_locks :
      (k v ttl now : ℕ) (s : S)
      → (set_nx redis (lock_key k) v ttl now s).1 ≡ true
      → Locked k v (now + ttl) (set_nx redis (lock_key k) v ttl now s).0
  set_nx_locks k v ttl now s h =
      ground (arith, redis.entry-set s (lock_key k) (lock_key k) v ttl now)

  set_nx_refused :
      (k v until w ttl now : ℕ) (s : S)
      → Locked k v until s
      → ltb now until ≡ true
      → (set_nx redis (lock_key k) w ttl now s).1 ≡ false
  set_nx_refused k v until w ttl now s l h = ground (arith, get-Locked k v until now s l h)

  guarded-answer :
      (command : S → S × Bool) (m : Moment) (link : Link) (st : State S)
      → (guarded redis false command m link st).1
        ≡ ((allow_request st.breaker m.readings).1 && answered link && (command st.server).1)
  guarded-answer command m link st = go link (allow_request st.breaker m.readings)
    where
      go :
          (link : Link) (x : CircuitBreaker × Bool)
          → (admitted redis false command m link st.server x).1
            ≡ (x.1 && answered link && (command st.server).1)
      go link (b, false) = refl
      go no_client (b, true) = refl
      go up (b, true) = refl
      go refuses (b, true) = refl
      go loses (b, true) = refl

  pub guarded-true :
      (command : S → S × Bool) (P : S → Type 0) (m : Moment) (link : Link) (st : State S)
      → ((command st.server).1 ≡ true → P (command st.server).0)
      → (guarded redis false command m link st).1 ≡ true
      → P (guarded redis false command m link st).0.server
  guarded-true command P m link st p = go link (allow_request st.breaker m.readings)
    where
      go :
          (link : Link) (x : CircuitBreaker × Bool)
          → (admitted redis false command m link st.server x).1 ≡ true
          → P (admitted redis false command m link st.server x).0.server
      go link (b, false) e = absurd cc
      go no_client (b, true) e = absurd cc
      go up (b, true) e = p e
      go refuses (b, true) e = absurd cc
      go loses (b, true) e = absurd cc

  -- A lock is granted exactly where the breaker admits the call, Redis answers it, and nobody holds the
  -- key: in every failure the answer is False.
  pub acquire_distributed_lock_lem :
      (key value ttl : ℕ) (m : Moment) (link : Link) (st : State S)
      → (acquire_distributed_lock redis key value ttl m link st).1 ≡ (
          (allow_request st.breaker m.readings).1
          && answered link
          && is_none (redis.get st.server (lock_key key) m.now))
  unfolding acquire_distributed_lock
  acquire_distributed_lock_lem key value ttl m link st =
      guarded-answer (set_nx redis (lock_key key) value ttl m.now) m link st
      ∙ ap (λ b. (allow_request st.breaker m.readings).1 && answered link && b)
          (set_nx_takes key value ttl m.now st.server)

  pub acquire-Locked :
      (key value ttl : ℕ) (m : Moment) (link : Link) (st : State S)
      → (acquire_distributed_lock redis key value ttl m link st).1 ≡ true
      → Locked key value
          (m.now + ttl)
          (acquire_distributed_lock redis key value ttl m link st).0.server
  unfolding acquire_distributed_lock
  acquire-Locked key value ttl m link st e =
      guarded-true (set_nx redis (lock_key key) value ttl m.now) (Locked key value (m.now + ttl)) m
        link st (set_nx_locks key value ttl m.now st.server) e

  pub acquire-refused :
      (key value until w ttl : ℕ) (m : Moment) (link : Link) (st : State S)
      → Locked key value until st.server
      → ltb m.now until ≡ true
      → (acquire_distributed_lock redis key w ttl m link st).1 ≡ false
  unfolding acquire_distributed_lock
  acquire-refused key value until w ttl m link st l h = ground (
    arith,
    guarded-answer (set_nx redis (lock_key key) w ttl m.now) m link st,
    set_nx_refused key value until w ttl m.now st.server l h,
  )

  pub release-owner :
      (key value until : ℕ) (m : Moment) (st : State S)
      → Locked key value until st.server
      → ltb m.now until ≡ true
      → (release_distributed_lock redis key value m up st).1 ≡ true
  unfolding release_distributed_lock
  release-owner key value until m st l h =
      ground (arith, get-Locked key value until m.now st.server l h)

  extend_script-Locked :
      (k v until seconds now : ℕ) (s : S)
      → Locked k v until s
      → ltb now until ≡ true
      → ((extend_lock_script redis (lock_key k) v seconds now s).1 ≡ true)
        × Locked k v (now + seconds) (extend_lock_script redis (lock_key k) v seconds now s).0
  extend_script-Locked k v until seconds now s l h = ground (
    arith,
    get-Locked k v until now s l h,
    redis.entry-expire s (lock_key k) (lock_key k) seconds now,
  )

  -- An extension by the holder, where Redis answers it, succeeds and sets the end of the lock to the
  -- additional seconds from now on, whatever was left of it.
  extend_distributed_lock_lem :
      (key value until additional_ttl : ℕ) (m : Moment) (st : State S)
      → Locked key value until st.server
      → ltb m.now until ≡ true
      → ((extend_distributed_lock redis key value additional_ttl m up st).1 ≡ true)
        × Locked key value
            (m.now + additional_ttl)
            (extend_distributed_lock redis key value additional_ttl m up st).0.server
  unfolding extend_distributed_lock
  extend_distributed_lock_lem key value until additional_ttl m st l h =
      extend_script-Locked key value until additional_ttl m.now st.server l h
