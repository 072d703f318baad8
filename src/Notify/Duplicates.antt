-- ===== src/Notify/Duplicates.antt =====
-- The deduplication of notifications (services/notification-service/app/core/dispatcher.py).
use hot_sot.Base.{
  ℕ, ◌+◌, ◌≤◌, ◌≡◌, ◌≢◌, refl, ap, Bool, true, false, ◌&&◌, List, [], ◌∷◌, ltb, leb, arith,
  and-left, and-right,
}
use hot_sot.Notify.Channels.{sent, Outcome}
use hot_sot.Notify.Dispatch.{
  DedupKey, same_dedup, Redis, Request, Scene, World, rate_key, dedup_key, check_rate_limit,
  checked, deliver, dispatch, dispatches, after_rate,
}

-- Whether no call comes before a time.
abbrev every_after : ℕ → List (Request × Scene) → Bool
every_after start [] = true
every_after start ((r, e) ∷ cs) = leb start e.now && every_after start cs

same_dedup_refl : (k : DedupKey) → same_dedup k k ≡ true
same_dedup_refl k = ground arith

module _ {S : Type 0} (redis : Redis S) (digest : ℕ → ℕ) where
  -- A key is marked at least until 300 seconds after a time.
  abbrev Marked : DedupKey → ℕ → S → Type 0
  Marked k start s = start + 300 ≤ redis.until s k

  rate-until :
      (k : DedupKey) (r : Request) (e : Scene) (s : S)
      → redis.until (check_rate_limit redis digest r e s).0 k ≡ redis.until s k
  unfolding check_rate_limit
  rate-until k r e s = ground (arith, redis.until-incr s (rate_key redis digest r e) k)

  deliver-Marked :
      (k : DedupKey) (start : ℕ) (r : Request) (e : Scene) (w : World S)
      → leb start e.now ≡ true
      → Marked k start w.server
      → Marked k start (deliver redis digest r e w).0.server
  unfolding deliver
  deliver-Marked k start r e w g m =
      ground (arith, redis.until-setex w.server (dedup_key redis digest r) k 300 e.now)

  checked-Marked :
      (k : DedupKey) (start : ℕ) (r : Request) (e : Scene) (w : World S)
      → leb start e.now ≡ true
      → Marked k start w.server
      → Marked k start (checked redis digest r e w).0.server
  checked-Marked k start r e w g m = ground (arith, deliver-Marked k start r e w g m)

  after-Marked :
      (k : DedupKey) (start : ℕ) (r : Request) (e : Scene) (w : World S) (x : S × Bool)
      → leb start e.now ≡ true
      → Marked k start x.0
      → Marked k start (after_rate redis digest r e w x).0.server
  after-Marked k start r e w (s, false) g m = m
  after-Marked k start r e w (s, true) g m =
      checked-Marked k start r e (record w { server = s }) g m

  dispatch-Marked :
      (k : DedupKey) (start : ℕ) (r : Request) (e : Scene) (w : World S)
      → leb start e.now ≡ true
      → Marked k start w.server
      → Marked k start (dispatch redis digest r e w).0.server
  unfolding dispatch
  dispatch-Marked k start r e w g m =
      after-Marked k start r e w (check_rate_limit redis digest r e w.server) g
        (omega (arith, m, rate-until k r e w.server))

  dispatches-Marked :
      (k : DedupKey) (start : ℕ) (cs : List (Request × Scene)) (w : World S)
      → every_after start cs ≡ true
      → Marked k start w.server
      → Marked k start (dispatches redis digest cs w).server
  unfolding dispatches
  dispatches-Marked k start [] w g m = m
  dispatches-Marked k start ((r, e) ∷ cs) w g m =
      dispatches-Marked k start cs (dispatch redis digest r e w).0
        (and-right (leb start e.now) (every_after start cs) g)
        (dispatch-Marked k start r e w (and-left (leb start e.now) (every_after start cs) g) m)

  deliver-marks :
      (r : Request) (e : Scene) (w : World S)
      → (e.has_redis && e.dedup_writes) ≡ true
      → (deliver redis digest r e w).1.status ≡ sent
      → Marked (dedup_key redis digest r) e.now (deliver redis digest r e w).0.server
  unfolding deliver
  deliver-marks r e w g h = ground (
    arith,
    redis.until-setex w.server (dedup_key redis digest r) (dedup_key redis digest r) 300 e.now,
    same_dedup_refl (dedup_key redis digest r),
  )

  checked-marks :
      (r : Request) (e : Scene) (w : World S)
      → (e.has_redis && e.dedup_writes) ≡ true
      → (checked redis digest r e w).1.status ≡ sent
      → Marked (dedup_key redis digest r) e.now (checked redis digest r e w).0.server
  checked-marks r e w g h = ground (arith, deliver-marks r e w g)

  after-marks :
      (r : Request) (e : Scene) (w : World S) (x : S × Bool)
      → (e.has_redis && e.dedup_writes) ≡ true
      → (after_rate redis digest r e w x).1.status ≡ sent
      → Marked (dedup_key redis digest r) e.now (after_rate redis digest r e w x).0.server
  after-marks r e w (s, false) g h = absurd cc
  after-marks r e w (s, true) g h = checked-marks r e (record w { server = s }) g h

  -- What a call that delivers nothing leaves.
  abbrev pub Quiet : World S → World S × Outcome → Type 0
  Quiet w x = (x.0.deliveries ≡ w.deliveries) × (x.0.logs ≡ w.logs) × (x.1.status ≢ sent)

  checked-Quiet :
      (r : Request) (e : Scene) (w : World S)
      → (e.has_redis && e.dedup_reads) ≡ true
      → ltb e.now (redis.until w.server (dedup_key redis digest r)) ≡ true
      → Quiet w (checked redis digest r e w)
  checked-Quiet r e w g h =
      ground (arith, redis.exists_until w.server (dedup_key redis digest r) e.now)

  after-Quiet :
      (r : Request) (e : Scene) (w : World S) (x : S × Bool)
      → (e.has_redis && e.dedup_reads) ≡ true
      → ltb e.now (redis.until x.0 (dedup_key redis digest r)) ≡ true
      → Quiet w (after_rate redis digest r e w x)
  after-Quiet r e w (s, false) g h = (refl, refl, λ k. absurd cc)
  after-Quiet r e w (s, true) g h = checked-Quiet r e (record w { server = s }) g h

  -- After a notification was sent and its key marked, a call for the same tenant, user, channel and digest of
  -- the body within 300 seconds delivers nothing and logs nothing, whatever calls come between, none before
  -- the first, where Redis answers the test.
  pub dispatch_again :
      (r r' : Request) (e e' : Scene) (cs : List (Request × Scene)) (w : World S)
      → (e.has_redis && e.dedup_writes) ≡ true
      → (dispatch redis digest r e w).1.status ≡ sent
      → every_after e.now cs ≡ true
      → dedup_key redis digest r' ≡ dedup_key redis digest r
      → (e'.has_redis && e'.dedup_reads) ≡ true
      → ltb e'.now (e.now + 300) ≡ true
      → Quiet
          (dispatches redis digest cs (dispatch redis digest r e w).0)
          (dispatch redis digest r' e' (dispatches redis digest cs (dispatch redis digest r e w).0))
  unfolding dispatch
  dispatch_again r r' e e' cs w g h a same g' now =
      let w' =
        dispatches redis digest cs
          (after_rate redis digest r e w (check_rate_limit redis digest r e w.server)).0 in
      let marked =
        dispatches-Marked (dedup_key redis digest r) e.now cs
          (after_rate redis digest r e w (check_rate_limit redis digest r e w.server)).0 a
          (after-marks r e w (check_rate_limit redis digest r e w.server) g h) in
      after-Quiet r' e' w' (check_rate_limit redis digest r' e' w'.server) g' (
        still e'.now (e.now + 300)
          (redis.until (check_rate_limit redis digest r' e' w'.server).0
            (dedup_key redis digest r'))
          now
          (omega (
            arith,
            marked,
            rate-until (dedup_key redis digest r') r' e' w'.server,
            ap (redis.until w'.server) same,
          )))
    where
      still : (a b c : ℕ) → ltb a b ≡ true → b ≤ c → ltb a c ≡ true
      still a b c h k = ground arith
