-- ===== src/RedisClient/Cached.antt =====
-- What the cache gives back (shared/utils/redis_client.py).
use hot_sot.Base.{
  and-left, and-right, ℕ, ◌+◌, ◌≡◌, refl, sym, ap, subst, ◌∙◌, Bool, true, false, not, ◌&&◌, Option,
  none, some, List, [], ◌∷◌, ltb, ◌==◌, if◌then◌else◌, arith,
}
use hot_sot.Breaker.Core.{CircuitBreaker, allow_request}
use hot_sot.RedisClient.Server.{lock_key, cache_key, Entry, live, text_of, Server}
use hot_sot.RedisClient.Client.{
  Link, no_client, up, refuses, loses, Moment, State, Reply, set_nx, release_lock_script,
  extend_lock_script, guarded, admitted, parsed, acquire_distributed_lock, release_distributed_lock,
  extend_distributed_lock, cache_delete, publish, cache_set, cache_get,
}
use hot_sot.RedisClient.Run.{
  Op, acquire, extend, release, write, read, delete, message, Call, every, perform, step, run,
  guarded-server, unguarded-server,
}
use hot_sot.RedisClient.Grant.{answered, guarded-true}

-- Whether a call leaves a key of the cache alone.
abbrev pub leaves : {A : Type 0} → ℕ → ℕ → Call A → Bool
leaves prefix key c = elim c.op [
  | write k value ttl p ↦ not (p == prefix && k == key)
  | delete k p ↦ not (p == prefix && k == key)
  | _ ↦ true
]

module _ {S : Type 0} (redis : Server S) where
  -- The entry of a key of the cache.
  abbrev Stored : ℕ → ℕ → Option Entry → S → Type 0
  Stored prefix key e s = redis.entry s (cache_key prefix key) ≡ e

  set_nx-Stored :
      (p k j w ttl now : ℕ) (e : Option Entry) (s : S)
      → Stored p k e s
      → Stored p k e (set_nx redis (lock_key j) w ttl now s).0
  set_nx-Stored p k j w ttl now e s h =
      ground (arith, redis.entry-set s (lock_key j) (cache_key p k) w ttl now)

  release-Stored :
      (p k j w now : ℕ) (e : Option Entry) (s : S)
      → Stored p k e s
      → Stored p k e (release_lock_script redis (lock_key j) w now s).0
  release-Stored p k j w now e s h = ground (arith, redis.entry-del s (lock_key j) (cache_key p k))

  extend-Stored :
      (p k j w seconds now : ℕ) (e : Option Entry) (s : S)
      → Stored p k e s
      → Stored p k e (extend_lock_script redis (lock_key j) w seconds now s).0
  extend-Stored p k j w seconds now e s h =
      ground (arith, redis.entry-expire s (lock_key j) (cache_key p k) seconds now)

  write-Stored :
      (p k q j text ttl now : ℕ) (e : Option Entry) (s : S)
      → not (q == p && j == k) ≡ true
      → Stored p k e s
      → Stored p k e (redis.set s (cache_key q j) text ttl now)
  write-Stored p k q j text ttl now e s g h =
      ground (arith, redis.entry-set s (cache_key q j) (cache_key p k) text ttl now)

  delete-Stored :
      (p k q j : ℕ) (e : Option Entry) (s : S)
      → not (q == p && j == k) ≡ true
      → Stored p k e s
      → Stored p k e (redis.del s (cache_key q j))
  delete-Stored p k q j e s g h = ground (arith, redis.entry-del s (cache_key q j) (cache_key p k))

  get-Stored :
      (p k now : ℕ) (e : Option Entry) (s : S)
      → Stored p k e s
      → redis.get s (cache_key p k) now ≡ text_of (live now e)
  get-Stored p k now e s h =
      redis.get_entry s (cache_key p k) now ∙ ap (λ x. text_of (live now x)) h

module _ {S A : Type 0} (redis : Server S) (dumps : A → ℕ) (loads : ℕ → Option A) where
  parsed-server :
      (m : Moment) (r : Reply S (Option ℕ)) → (parsed redis dumps loads m r).0.server ≡ r.0.server
  parsed-server m r = ground arith

  perform-Stored :
      (p k : ℕ) (e : Option Entry) (op : Op A) (m : Moment) (link : Link) (st : State S)
      → leaves p k (record { op = op; moment = m; link = link }) ≡ true
      → Stored redis p k e st.server
      → Stored redis p k e (perform redis dumps loads op m link st).server
  unfolding acquire_distributed_lock extend_distributed_lock release_distributed_lock cache_set
      cache_get cache_delete publish
  perform-Stored p k e (acquire j w ttl) m link st g h =
      guarded-server redis (Stored redis p k e) false (set_nx redis (lock_key j) w ttl m.now) m link
        st h (set_nx-Stored redis p k j w ttl m.now e st.server h)
  perform-Stored p k e (extend j w seconds) m link st g h =
      unguarded-server redis (Stored redis p k e) false
        (extend_lock_script redis (lock_key j) w seconds m.now) link st h
        (extend-Stored redis p k j w seconds m.now e st.server h)
  perform-Stored p k e (release j w) m link st g h =
      unguarded-server redis (Stored redis p k e) false
        (release_lock_script redis (lock_key j) w m.now) link st h
        (release-Stored redis p k j w m.now e st.server h)
  perform-Stored p k e (write j value ttl q) m link st g h =
      guarded-server redis (Stored redis p k e) false
        (λ s. (redis.set s (cache_key q j) (dumps value) ttl m.now, true)) m link st h
        (write-Stored redis p k q j (dumps value) ttl m.now e st.server g h)
  perform-Stored p k e (read j q) m link st g h =
      subst (Stored redis p k e)
        (sym (
          parsed-server m
            (guarded redis none (λ s. (s, redis.get s (cache_key q j) m.now)) m link st)))
        (guarded-server redis (Stored redis p k e) none
          (λ s. (s, redis.get s (cache_key q j) m.now)) m link st h h)
  perform-Stored p k e (delete j q) m link st g h =
      guarded-server redis (Stored redis p k e) false (λ s. (redis.del s (cache_key q j), true)) m
        link st h (delete-Stored redis p k q j e st.server g h)
  perform-Stored p k e message m link st g h =
      guarded-server redis (Stored redis p k e) false (λ s. (s, true)) m link st h h

  run-Stored :
      (p k : ℕ) (e : Option Entry) (cs : List (Call A)) (st : State S)
      → every (leaves p k) cs ≡ true
      → Stored redis p k e st.server
      → Stored redis p k e (run redis dumps loads cs st).server
  unfolding run
  run-Stored p k e [] st g h = h
  run-Stored p k e (c ∷ cs) st g h =
      run-Stored p k e cs (step redis dumps loads c st)
        (and-right (leaves p k c) (every (leaves p k) cs) g)
        (perform-Stored p k e c.op c.moment c.link st
          (and-left (leaves p k c) (every (leaves p k) cs) g) h)

  -- What a call to read gets of an entry.
  abbrev given : Bool → Option Entry → Option A
  given true (some e) = loads e.text
  given _ _ = none

  get-given :
      (p k : ℕ) (e : Option Entry) (m : Moment) (link : Link) (st : State S)
      → Stored redis p k e st.server
      → (cache_get redis dumps loads k p m link st).1
        ≡ given ((allow_request st.breaker m.readings).1 && answered link) (live m.now e)
  unfolding cache_get
  get-given p k e m link st h = go link (allow_request st.breaker m.readings)
    where
      shown :
          (x : Option Entry) (st' : State S) (text : Option ℕ)
          → text ≡ text_of x
          → (parsed redis dumps loads m (st', text)).1 ≡ given true x
      shown none st' text h = ground arith
      shown (some e) st' text h = ground arith

      go :
          (link : Link) (x : CircuitBreaker × Bool)
          → (parsed redis dumps loads m (
              admitted redis none
                (λ s. (s, redis.get s (cache_key p k) m.now))
                m
                link
                st.server
                x)).1
            ≡ given (x.1 && answered link) (live m.now e)
      go link (b, false) = refl
      go no_client (b, true) = refl
      go up (b, true) =
          shown (live m.now e)
            (admitted redis none (λ s. (s, redis.get s (cache_key p k) m.now)) m up st.server
              (b, true)).0
            (redis.get st.server (cache_key p k) m.now) (get-Stored redis p k m.now e st.server h)
      go refuses (b, true) = refl
      go loses (b, true) = refl

  set-Stored :
      (key ttl prefix : ℕ) (value : A) (m : Moment) (link : Link) (st : State S)
      → (cache_set redis dumps loads key value ttl prefix m link st).1 ≡ true
      → Stored redis prefix key
          (some (record { text = dumps value; until = m.now + ttl }))
          (cache_set redis dumps loads key value ttl prefix m link st).0.server
  unfolding cache_set
  set-Stored key ttl prefix value m link st =
      guarded-true redis (λ s. (redis.set s (cache_key prefix key) (dumps value) ttl m.now, true))
        (Stored redis prefix key (some (record { text = dumps value; until = m.now + ttl }))) m link
        st
        (λ h. ground (
          arith,
          redis.entry-set st.server (cache_key prefix key) (cache_key prefix key) (dumps value) ttl
              m.now,
        ))

  -- A value that was stored is read back, after whatever calls that leave its key alone, exactly until its TTL
  -- has passed and where the breaker admits the reading and Redis answers it; else the answer is None. The
  -- reading of JSON gives back what the writing got.
  pub cache_get-cache_set :
      (key ttl prefix : ℕ) (value : A) (m m' : Moment) (link link' : Link) (cs : List (Call A))
      (st : State S)
      → loads (dumps value) ≡ some value
      → (cache_set redis dumps loads key value ttl prefix m link st).1 ≡ true
      → every (leaves prefix key) cs ≡ true
      → (let st' =
            run redis dumps loads cs
              (cache_set redis dumps loads key value ttl prefix m link st).0 in
          (cache_get redis dumps loads key prefix m' link' st').1 ≡ (
            if (allow_request st'.breaker m'.readings).1
              && answered link'
              && ltb m'.now (m.now + ttl)
            then some value
            else none))
  cache_get-cache_set key ttl prefix value m m' link link' cs st j e g =
      let st' =
        run redis dumps loads cs (cache_set redis dumps loads key value ttl prefix m link st).0 in
      let entry : Option Entry = some (record { text = dumps value; until = m.now + ttl }) in
      let stored =
        run-Stored prefix key entry cs
          (cache_set redis dumps loads key value ttl prefix m link st).0 g
          (set-Stored key ttl prefix value m link st e) in
      get-given prefix key entry m' link' st' stored
      ∙ choose ((allow_request st'.breaker m'.readings).1) (answered link')
          (ltb m'.now (m.now + ttl))
    where
      choose :
          (a b c : Bool)
          → given
              (a && b)
              (if c then some (record { text = dumps value; until = m.now + ttl }) else none)
            ≡ (if a && b && c then some value else none)
      choose a b c = ground (arith, j)
