-- ===== src/RedisClient/Examples.antt =====
-- A Redis server of keys, clients at work, and the theorems on them at concrete inputs
-- (shared/utils/redis_client.py).
use hot_sot.Base.{
  ℕ, ◌+◌, ◌-◌, ◌≤◌, ◌≡◌, refl, ap, ◌==◌, length, true, false, Option, none, some, List, [], ◌∷◌,
  ltb, if◌then◌else◌, arith, ◌&&◌,
}
use hot_sot.Breaker.Core.{
  new, allow_request, record_success, record_failure, state_at, transition_to, changed, recent,
}
use hot_sot.RedisClient.Server.{Key, lock_key, same_key, Entry, live, text_of, renewed, Server}
use hot_sot.RedisClient.Client.{
  Link, up, refuses, loses, Moment, State, acquire_distributed_lock, release_distributed_lock,
  extend_distributed_lock, cache_set, cache_get,
}
use hot_sot.RedisClient.Run.{Op, acquire, release, write, message, Call, run}
use hot_sot.RedisClient.Grant.{answered, acquire_distributed_lock_lem}
use hot_sot.RedisClient.Lock.{acquire_distributed_lock_excludes}
use hot_sot.RedisClient.Probes.{grants}
use hot_sot.RedisClient.Outage.{grants_outage}
use hot_sot.RedisClient.Rate.{SortedSets, above, contains, all_allowed, check_rate_limit_burst}
use hot_sot.RedisClient.Cached.{cache_get-cache_set}

-- The last entry of a key; `none` where it was deleted.
abbrev entry_in : List (Key × Option Entry) → Key → Option Entry
entry_in [] j = none
entry_in ((k, e) ∷ s) j = if same_key k j then e else entry_in s j

abbrev server : Server (List (Key × Option Entry))
server = record {
  entry = entry_in;
  get = λ s k now. text_of (live now (entry_in s k));
  set = λ s k text ttl now. (k, some (record { text = text; until = now + ttl })) ∷ s;
  del = λ s k. (k, none) ∷ s;
  expire = λ s k seconds now. (k, renewed (now + seconds) (live now (entry_in s k))) ∷ s;
  get_entry = λ s k now. refl;
  entry-set = λ s k j text ttl now. refl;
  entry-del = λ s k j. refl;
  entry-expire = λ s k j seconds now. refl;
}

abbrev at : ℕ → Moment
at t = record {
  readings = record { at_state = t; at_test = t; at_change = t };
  at_success = t;
  at_failure = t;
  at_change = t;
  now = t;
}

abbrev fresh : State (List (Key × Option Entry))
fresh = record { server = []; breaker = new 5 30 2 1 10 }

abbrev dumps : ℕ → ℕ
dumps n = n + 1

abbrev loads : ℕ → Option ℕ
loads n = if ltb 0 n then some (n - 1) else none

abbrev call : Op ℕ → ℕ → Link → Call ℕ
call op t link = record { op = op; moment = at t; link = link }

-- Other orders try the shelf, one of them where the answer is lost, and the cache is used.
abbrev others : List (Call ℕ)
others =
    call (acquire 4 88 600) 30 up
    ∷ call (release 4 88) 40 up
    ∷ call (acquire 4 99 600) 50 loses
    ∷ call (write 4 7 60 0) 60 up
    ∷ call message 70 refuses
    ∷ []

acquired : (acquire_distributed_lock server 4 77 600 (at 20) up fresh).1 ≡ true
unfolding acquire_distributed_lock allow_request state_at record_success
acquired = refl

acquire_distributed_lock_lem_example :
    (acquire_distributed_lock server 4 77 600 (at 20) up fresh).1
    ≡ ((allow_request fresh.breaker (at 20).readings).1 && answered up && true)
acquire_distributed_lock_lem_example = acquire_distributed_lock_lem server 4 77 600 (at 20) up fresh

acquire_distributed_lock_excludes_example :
    ((acquire_distributed_lock server 4 66 600 (at 610) up (
        run server dumps loads others
          (acquire_distributed_lock server 4 77 600 (at 20) up fresh).0)).1
      ≡ false)
    × ((release_distributed_lock server 4 77 (at 610) up (
          run server dumps loads others
            (acquire_distributed_lock server 4 77 600 (at 20) up fresh).0)).1
        ≡ true)
acquire_distributed_lock_excludes_example =
    acquire_distributed_lock_excludes server dumps loads 4 77 600 66 600 (at 20) (at 610) up up
      others fresh acquired refl refl

abbrev no_answer : ℕ → Call ℕ
no_answer t = call (acquire 4 77 600) t refuses

abbrev later : List (Call ℕ)
later =
    call (acquire 1 77 600) 100 up
    ∷ call (acquire 2 77 600) 200 up
    ∷ call (acquire 3 77 600) 300 up
    ∷ call (acquire 4 77 600) 400 up
    ∷ call (acquire 5 77 600) 500 up
    ∷ []

abbrev outage : List (Call ℕ)
outage = no_answer 21 ∷ no_answer 22 ∷ no_answer 23 ∷ no_answer 24 ∷ []

grants_outage_example :
    grants server dumps loads later (run server dumps loads (no_answer 20 ∷ outage) fresh)
    ≤ (run server dumps loads (no_answer 20 ∷ outage) fresh).breaker.half_open_max_requests
grants_outage_example =
    grants_outage server dumps loads (no_answer 20) outage later fresh refl (omega arith) refl refl
      refl

-- The bound is reached: one of the five locks is granted, and none after it.
one_granted :
    grants server dumps loads later (run server dumps loads (no_answer 20 ∷ outage) fresh) ≡ 1
unfolding grants run acquire_distributed_lock allow_request state_at record_success record_failure
    transition_to changed recent
one_granted = refl

cache_get-cache_set_example :
    (let st' =
        run server dumps loads others
          (cache_set server dumps loads 5 42 120 0 (at 20) up fresh).0 in
      (cache_get server dumps loads 5 0 (at 100) up st').1 ≡ (
        if (allow_request st'.breaker (at 100).readings).1 && answered up && ltb 100 140
        then some 42
        else none))
unfolding cache_set allow_request state_at record_success
cache_get-cache_set_example =
    cache_get-cache_set server dumps loads 5 120 0 42 (at 20) (at 100) up up others fresh refl refl
      refl

-- A lock with 580 seconds left, extended by 30, has 30 left.
lock_shortened :
    entry_in
      (extend_distributed_lock server 4 77 30
        (at 40)
        up
        (acquire_distributed_lock server 4 77 600 (at 20) up fresh).0).0.server
      (lock_key 4)
    ≡ some (record { text = 77; until = 70 })
unfolding acquire_distributed_lock extend_distributed_lock allow_request state_at record_success
lock_shortened = refl

abbrev Both : Type 0
Both = List (Key × Option Entry) × (ℕ → List ℕ)

abbrev both : Server Both
both = record {
  entry = λ s k. entry_in s.0 k;
  get = λ s k now. text_of (live now (entry_in s.0 k));
  set = λ s k text ttl now. ((k, some (record { text = text; until = now + ttl })) ∷ s.0, s.1);
  del = λ s k. ((k, none) ∷ s.0, s.1);
  expire = λ s k seconds now. ((k, renewed (now + seconds) (live now (entry_in s.0 k))) ∷ s.0, s.1);
  get_entry = λ s k now. refl;
  entry-set = λ s k j text ttl now. refl;
  entry-del = λ s k j. refl;
  entry-expire = λ s k j seconds now. refl;
}

same_number : (k : ℕ) → (k == k) ≡ true
same_number k = ground arith

abbrev update : (ℕ → List ℕ) → ℕ → List ℕ → ℕ → List ℕ
update f k ms j = if k == j then ms else f j

update-same : (f : ℕ → List ℕ) (k : ℕ) (ms : List ℕ) → update f k ms k ≡ ms
update-same f k ms = ap (λ b. if b then ms else f k) (same_number k)

abbrev sets : SortedSets Both
sets = record {
  scores = λ z k. z.1 k;
  zremrangebyscore = λ z k limit. (z.0, update z.1 k (above limit (z.1 k)));
  zcard = λ z k. length (z.1 k);
  zadd = λ z k n. (z.0, update z.1 k (if contains (z.1 k) n then z.1 k else n ∷ z.1 k));
  zcard_scores = λ z k. refl;
  scores-zremrangebyscore = λ z k limit. update-same z.1 k (above limit (z.1 k));
  scores-zadd = λ z k n. update-same z.1 k (if contains (z.1 k) n then z.1 k else n ∷ z.1 k);
}

-- A thousand calls of one second pass a limit of three a minute.
check_rate_limit_burst_example :
    all_allowed both sets 1000 8 3 60
      (at 100)
      (record { server = ([], λ k. 99 ∷ []); breaker = new 5 30 2 1 10 })
    ≡ true
check_rate_limit_burst_example =
    check_rate_limit_burst both sets 1000 8 3 60 (at 100)
      (record { server = ([], λ k. 99 ∷ []); breaker = new 5 30 2 1 10 }) refl refl refl
