-- ===== src/RedisClient/Run.antt =====
-- Sequences of calls of Redis clients that share a server and a breaker (shared/utils/redis_client.py).
use hot_sot.Base.{ℕ, Bool, true, false, ◌&&◌, Option, List, [], ◌∷◌}
use hot_sot.Breaker.Core.{CircuitBreaker, allow_request}
use hot_sot.RedisClient.Server.{Server}
use hot_sot.RedisClient.Client.{
  Link, no_client, up, refuses, loses, Moment, State, guarded, unguarded, admitted,
  acquire_distributed_lock, release_distributed_lock, extend_distributed_lock, cache_delete,
  publish, cache_set, cache_get,
}

-- The methods with their arguments.
pub data Op (A : Type 0) : Type 0 where
  acquire extend : ℕ → ℕ → ℕ → Op A
  release : ℕ → ℕ → Op A
  write : ℕ → A → ℕ → ℕ → Op A
  read delete : ℕ → ℕ → Op A
  message : Op A

pub record Call (A : Type 0) : Type 0 where
  pub op : Op A
  pub moment : Moment
  pub link : Link

abbrev pub every : {A : Type 0} → (Call A → Bool) → List (Call A) → Bool
every good [] = true
every good (c ∷ cs) = good c && every good cs

module _ {S A : Type 0} (redis : Server S) (dumps : A → ℕ) (loads : ℕ → Option A) where
  abbrev pub perform : Op A → Moment → Link → State S → State S
  perform (acquire key value ttl) m link st =
      (acquire_distributed_lock redis key value ttl m link st).0
  perform (extend key value ttl) m link st =
      (extend_distributed_lock redis key value ttl m link st).0
  perform (release key value) m link st = (release_distributed_lock redis key value m link st).0
  perform (write key value ttl prefix) m link st =
      (cache_set redis dumps loads key value ttl prefix m link st).0
  perform (read key prefix) m link st = (cache_get redis dumps loads key prefix m link st).0
  perform (delete key prefix) m link st = (cache_delete redis key prefix m link st).0
  perform message m link st = (publish redis m link st).0

  abbrev pub step : Call A → State S → State S
  step c st = perform c.op c.moment c.link st

  unfoldable pub run : List (Call A) → State S → State S
  run [] st = st
  run (c ∷ cs) st = run cs (step c st)

-- What the server of a call is afterwards: as it was, or as the command left it.
pub guarded-server :
    {S A : Type 0} (redis : Server S) (P : S → Type 0) (d : A) (command : S → S × A) (m : Moment)
    (link : Link) (st : State S)
    → P st.server
    → P (command st.server).0
    → P (guarded redis d command m link st).0.server
guarded-server redis P d command m link st p q = go link (allow_request st.breaker m.readings)
  where
    go :
        (link : Link) (x : CircuitBreaker × Bool)
        → P (admitted redis d command m link st.server x).0.server
    go link (b, false) = p
    go no_client (b, true) = p
    go up (b, true) = q
    go refuses (b, true) = p
    go loses (b, true) = q

pub unguarded-server :
    {S A : Type 0} (redis : Server S) (P : S → Type 0) (d : A) (command : S → S × A) (link : Link)
    (st : State S)
    → P st.server
    → P (command st.server).0
    → P (unguarded redis d command link st).0.server
unguarded-server redis P d command no_client st p q = p
unguarded-server redis P d command up st p q = q
unguarded-server redis P d command refuses st p q = p
unguarded-server redis P d command loses st p q = q
