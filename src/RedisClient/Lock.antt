-- ===== src/RedisClient/Lock.antt =====
-- The exclusion by distributed locks over sequences of calls (shared/utils/redis_client.py).
use hot_sot.Base.{
  and-left, and-right, ℕ, ◌+◌, ◌≡◌, sym, subst, ◌∙◌, Bool, true, false, not, ◌&&◌, Option, none,
  List, [], ◌∷◌, ltb, ◌==◌, arith,
}
use hot_sot.RedisClient.Server.{lock_key, cache_key, Server}
use hot_sot.RedisClient.Client.{
  Link, up, Moment, State, Reply, set_nx, release_lock_script, extend_lock_script, guarded,
  acquire_distributed_lock, release_distributed_lock, extend_distributed_lock, cache_delete,
  publish, cache_set, cache_get, parsed,
}
use hot_sot.RedisClient.Run.{
  Op, acquire, extend, release, write, read, delete, message, Call, every, step, perform, run,
  guarded-server, unguarded-server,
}
use hot_sot.RedisClient.Grant.{
  Locked, set_nx-Locked, release-Locked, extend-Locked, acquire-Locked, acquire-refused,
  release-owner,
}

-- Whether a call comes before a time and neither releases nor extends a lock with its own text.
abbrev pub spares : {A : Type 0} → ℕ → ℕ → ℕ → Call A → Bool
spares k v until c = ltb c.moment.now until && elim c.op [
  | release j w ↦ not (k == j && v == w)
  | extend j w seconds ↦ not (k == j && v == w)
  | _ ↦ true
]

not-true : (a : Bool) → not a ≡ true → a ≡ false
not-true a h = ground arith

module _ {S A : Type 0} (redis : Server S) (dumps : A → ℕ) (loads : ℕ → Option A) where
  cache-Locked :
      (k v until prefix key text ttl now : ℕ) (s : S)
      → Locked redis k v until s
      → Locked redis k v until (redis.set s (cache_key prefix key) text ttl now)
  cache-Locked k v until prefix key text ttl now s l =
      redis.entry-set s (cache_key prefix key) (lock_key k) text ttl now ∙ l

  delete-Locked :
      (k v until prefix key : ℕ) (s : S)
      → Locked redis k v until s
      → Locked redis k v until (redis.del s (cache_key prefix key))
  delete-Locked k v until prefix key s l = redis.entry-del s (cache_key prefix key) (lock_key k) ∙ l

  parsed-server :
      (m : Moment) (r : Reply S (Option ℕ)) → (parsed redis dumps loads m r).0.server ≡ r.0.server
  parsed-server m r = ground arith

  perform-Locked :
      (k v until : ℕ) (op : Op A) (m : Moment) (link : Link) (st : State S)
      → spares k v until (record { op = op; moment = m; link = link }) ≡ true
      → Locked redis k v until st.server
      → Locked redis k v until (perform redis dumps loads op m link st).server
  unfolding acquire_distributed_lock extend_distributed_lock release_distributed_lock cache_set
      cache_get cache_delete publish
  perform-Locked k v until (acquire j w ttl) m link st g l =
      let before = and-left (ltb m.now until) true g in
      guarded-server redis (Locked redis k v until) false (set_nx redis (lock_key j) w ttl m.now) m
        link st l (set_nx-Locked redis k v until j w ttl m.now st.server l before)
  perform-Locked k v until (extend j w seconds) m link st g l =
      let own = k == j && v == w in
      unguarded-server redis (Locked redis k v until) false
        (extend_lock_script redis (lock_key j) w seconds m.now) link st l
        (extend-Locked redis k v until j w seconds m.now st.server l
          (and-left (ltb m.now until) (not own) g)
          (not-true own (and-right (ltb m.now until) (not own) g)))
  perform-Locked k v until (release j w) m link st g l =
      let own = k == j && v == w in
      unguarded-server redis (Locked redis k v until) false
        (release_lock_script redis (lock_key j) w m.now) link st l
        (release-Locked redis k v until j w m.now st.server l
          (and-left (ltb m.now until) (not own) g)
          (not-true own (and-right (ltb m.now until) (not own) g)))
  perform-Locked k v until (write key value ttl prefix) m link st g l =
      guarded-server redis (Locked redis k v until) false
        (λ s. (redis.set s (cache_key prefix key) (dumps value) ttl m.now, true)) m link st l
        (cache-Locked k v until prefix key (dumps value) ttl m.now st.server l)
  perform-Locked k v until (read key prefix) m link st g l =
      subst (Locked redis k v until)
        (sym (
          parsed-server m
            (guarded redis none (λ s. (s, redis.get s (cache_key prefix key) m.now)) m link st)))
        (guarded-server redis (Locked redis k v until) none
          (λ s. (s, redis.get s (cache_key prefix key) m.now)) m link st l l)
  perform-Locked k v until (delete key prefix) m link st g l =
      guarded-server redis (Locked redis k v until) false
        (λ s. (redis.del s (cache_key prefix key), true)) m link st l
        (delete-Locked k v until prefix key st.server l)
  perform-Locked k v until message m link st g l =
      guarded-server redis (Locked redis k v until) false (λ s. (s, true)) m link st l l

  run-Locked :
      (k v until : ℕ) (cs : List (Call A)) (st : State S)
      → every (spares k v until) cs ≡ true
      → Locked redis k v until st.server
      → Locked redis k v until (run redis dumps loads cs st).server
  unfolding run
  run-Locked k v until [] st g l = l
  run-Locked k v until (c ∷ cs) st g l =
      run-Locked k v until cs (step redis dumps loads c st)
        (and-right (spares k v until c) (every (spares k v until) cs) g)
        (perform-Locked k v until c.op c.moment c.link st
          (and-left (spares k v until c) (every (spares k v until) cs) g) l)

  -- Once a lock has been granted to a text, and until its TTL has passed, whatever calls on locks, cache and
  -- channels follow and however Redis fails in them, no other acquisition of the key succeeds, unless a
  -- call releases or extends it with the same text; and the holder's release, when it is answered, succeeds.
  pub acquire_distributed_lock_excludes :
      (key value ttl w ttl' : ℕ) (m m' : Moment) (link link' : Link) (cs : List (Call A))
      (st : State S)
      → (acquire_distributed_lock redis key value ttl m link st).1 ≡ true
      → every (spares key value (m.now + ttl)) cs ≡ true
      → ltb m'.now (m.now + ttl) ≡ true
      → ((acquire_distributed_lock redis key w ttl' m' link'
            (run redis dumps loads cs (acquire_distributed_lock redis key value ttl m link st).0)).1
          ≡ false)
        × ((release_distributed_lock redis key value m' up (
              run redis dumps loads cs
                (acquire_distributed_lock redis key value ttl m link st).0)).1
            ≡ true)
  acquire_distributed_lock_excludes key value ttl w ttl' m m' link link' cs st e g h =
      let st' =
        run redis dumps loads cs (acquire_distributed_lock redis key value ttl m link st).0 in
      let l =
        run-Locked key value (m.now + ttl) cs
          (acquire_distributed_lock redis key value ttl m link st).0 g
          (acquire-Locked redis key value ttl m link st e) in
      (
        acquire-refused redis key value (m.now + ttl) w ttl' m' link' st' l h,
        release-owner redis key value (m.now + ttl) m' st' l h,
      )
