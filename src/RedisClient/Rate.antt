-- ===== src/RedisClient/Rate.antt =====
-- `check_rate_limit` of the class RedisClient (shared/utils/redis_client.py) over the sorted sets of Redis.
use hot_sot.Base.{
  ℕ, zero, suc, ◌+◌, ◌-◌, ◌≡◌, refl, ap, ◌∙◌, Bool, true, false, ◌&&◌, ◌||◌, List, [], ◌∷◌, ltb,
  ◌==◌, if◌then◌else◌, length, arith,
}
use hot_sot.Breaker.Core.{CircuitBreaker, allow_request, record_success, closed, state_at}
use hot_sot.RedisClient.Server.{Server}
use hot_sot.RedisClient.Client.{Link, up, Moment, State, Reply, guarded}

abbrev pub contains : List ℕ → ℕ → Bool
contains [] n = false
contains (m ∷ ms) n = m == n || contains ms n

abbrev pub above : ℕ → List ℕ → List ℕ
above limit [] = []
above limit (m ∷ ms) = let rest = above limit ms in if ltb limit m then m ∷ rest else rest

-- Sorted sets whose members are their scores, as texts. EXPIRE ends a set after a time in which all its
-- members have left the window, so it is left out.
pub record SortedSets (Z : Type 0) : Type 0 where
  pub scores : Z → ℕ → List ℕ
  pub zremrangebyscore : Z → ℕ → ℕ → Z
  pub zcard : Z → ℕ → ℕ
  pub zadd : Z → ℕ → ℕ → Z
  pub zcard_scores : (z : Z) (k : ℕ) → zcard z k ≡ length (scores z k)
  pub scores-zremrangebyscore :
      (z : Z) (k limit : ℕ) → scores (zremrangebyscore z k limit) k ≡ above limit (scores z k)
  pub scores-zadd :
      (z : Z) (k n : ℕ)
      → scores (zadd z k n) k ≡ (if contains (scores z k) n then scores z k else n ∷ scores z k)

-- The seconds of the window with a call, the present one counted.
abbrev seconds_with : ℕ → List ℕ → ℕ
seconds_with now seconds = length seconds + (if contains seconds now then 0 else 1)

above-above : (limit : ℕ) (ms : List ℕ) → above limit (above limit ms) ≡ above limit ms
above-above limit [] = refl
above-above limit (m ∷ ms) = ground (arith, above-above limit ms)

abbrev added : ℕ → List ℕ → List ℕ
added now seconds = if contains seconds now then seconds else now ∷ seconds

above-added :
    (limit now : ℕ) (ms : List ℕ)
    → ltb limit now ≡ true
    → above limit (added now (above limit ms)) ≡ added now (above limit ms)
above-added limit now ms h = ground (arith, above-above limit ms)

seconds_with-added : (now : ℕ) (ms : List ℕ) → seconds_with now (added now ms) ≡ seconds_with now ms
seconds_with-added now ms = ground arith

module _ {S : Type 0} (redis : Server S) (sets : SortedSets S) where
  -- The pipeline, at a time of the server that is not before the first window.
  abbrev pipeline : ℕ → ℕ → ℕ → ℕ → S → S × (Bool × ℕ)
  pipeline key limit window_seconds now s =
      let z = sets.zremrangebyscore s key (now - window_seconds) in
      let current_count = sets.zcard z key in
      (sets.zadd z key now, (ltb current_count limit, limit - current_count - 1))

  unfoldable pub check_rate_limit : ℕ → ℕ → ℕ → Moment → Link → State S → Reply S (Bool × ℕ)
  check_rate_limit identifier limit window_seconds m link st =
      guarded redis (false, 0) (pipeline identifier limit window_seconds m.now) m link st

  -- The seconds of the window that ends now in which the identifier made a call, the present one counted.
  abbrev pub seen : ℕ → ℕ → ℕ → S → ℕ
  seen key window_seconds now s =
      seconds_with now (above (now - window_seconds) (sets.scores s key))

  pipeline-scores :
      (key limit window_seconds now : ℕ) (s : S)
      → sets.scores (pipeline key limit window_seconds now s).0 key
        ≡ added now (above (now - window_seconds) (sets.scores s key))
  pipeline-scores key limit window_seconds now s =
      sets.scores-zadd (sets.zremrangebyscore s key (now - window_seconds)) key now
      ∙ ap (added now) (sets.scores-zremrangebyscore s key (now - window_seconds))

  pipeline-seen :
      (key limit window_seconds now : ℕ) (s : S)
      → ltb (now - window_seconds) now ≡ true
      → seen key window_seconds now (pipeline key limit window_seconds now s).0
        ≡ seen key window_seconds now s
  pipeline-seen key limit window_seconds now s h =
      let ms = sets.scores s key in
      let start = now - window_seconds in
      ap (λ x. seconds_with now (above start x)) (pipeline-scores key limit window_seconds now s)
      ∙ ap (seconds_with now) (above-added start now ms h)
      ∙ seconds_with-added now (above start ms)

  pipeline-allows :
      (key limit window_seconds now : ℕ) (s : S)
      → ltb (seen key window_seconds now s) limit ≡ true
      → (pipeline key limit window_seconds now s).1.0 ≡ true
  pipeline-allows key limit window_seconds now s h = ground (
    arith,
    sets.zcard_scores (sets.zremrangebyscore s key (now - window_seconds)) key,
    sets.scores-zremrangebyscore s key (now - window_seconds),
  )

  -- Whether a number of calls at one moment are all allowed.
  unfoldable pub all_allowed : ℕ → ℕ → ℕ → ℕ → Moment → State S → Bool
  all_allowed zero identifier limit window_seconds m st = true
  all_allowed (suc n) identifier limit window_seconds m st =
      let r = check_rate_limit identifier limit window_seconds m up st in
      let rest = all_allowed n identifier limit window_seconds m r.0 in r.1.0 && rest

  success_closed :
      (b : CircuitBreaker) (at : ℕ) → b.state ≡ closed → (record_success b at).state ≡ closed
  unfolding record_success
  success_closed b at c = ground arith

  check-closed :
      (identifier limit window_seconds : ℕ) (m : Moment) (st : State S)
      → st.breaker.state ≡ closed
      → check_rate_limit identifier limit window_seconds m up st ≡ (
        record {
          server = (pipeline identifier limit window_seconds m.now st.server).0;
          breaker = record_success st.breaker m.at_success;
        },
        (pipeline identifier limit window_seconds m.now st.server).1,
      )
  unfolding check_rate_limit allow_request state_at
  check-closed identifier limit window_seconds m st c = ground arith

  -- Any number of calls in one second are all allowed, while the breaker is CLOSED, Redis answers them, and
  -- fewer seconds of the window than the limit, the present one counted, had a call.
  pub check_rate_limit_burst :
      (n identifier limit window_seconds : ℕ) (m : Moment) (st : State S)
      → st.breaker.state ≡ closed
      → ltb (m.now - window_seconds) m.now ≡ true
      → ltb (seen identifier window_seconds m.now st.server) limit ≡ true
      → all_allowed n identifier limit window_seconds m st ≡ true
  unfolding all_allowed
  check_rate_limit_burst zero identifier limit window_seconds m st c h k = refl
  check_rate_limit_burst (suc n) identifier limit window_seconds m st c h k =
      let r : Reply S (Bool × ℕ) = check_rate_limit identifier limit window_seconds m up st in
      let e = check-closed identifier limit window_seconds m st c in
      let s = pipeline-seen identifier limit window_seconds m.now st.server h in
      let rest =
        check_rate_limit_burst n identifier limit window_seconds m r.0
          (ap (λ x. x.0.breaker.state) e ∙ success_closed st.breaker m.at_success c) h
          (ap (λ x. ltb (seen identifier window_seconds m.now x.0.server) limit) e
            ∙ ap (λ x. ltb x limit) s
            ∙ k) in
      and_true (r.1.0) (all_allowed n identifier limit window_seconds m r.0)
        (ap (λ x. x.1.0) e ∙ pipeline-allows identifier limit window_seconds m.now st.server k) rest
    where
      and_true : (a b : Bool) → a ≡ true → b ≡ true → (a && b) ≡ true
      and_true a b p q = ground arith
