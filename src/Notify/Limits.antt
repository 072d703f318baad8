-- ===== src/Notify/Limits.antt =====
-- The rate limit of notifications (services/notification-service/app/core/dispatcher.py).
use hot_sot.Base.{
  ℕ, suc, ◌+◌, ◌≤◌, ◌≡◌, refl, sym, ap, Bool, true, false, not, ◌&&◌, List, [], ◌∷◌, leb,
  if◌then◌else◌, arith, and-left, and-right, subst, Bool-cases, inl, inr,
}
use hot_sot.Notify.Dispatch.{
  RateKey, same_rate, Redis, Request, Scene, Delivery, World, is_exempt, rate_key, dedup_key,
  check_rate_limit, checked, deliver, dispatch, dispatches, after_rate, default_rate_limit_per_hour,
}

-- How many of the deliveries come under a counter.
abbrev pub limited : RateKey → List Delivery → ℕ
limited k [] = 0
limited k (d ∷ ds) =
    let rest = limited k ds in if same_rate k d.rate_key && not d.exempt then suc rest else rest

-- Whether Redis counts in every call.
abbrev every_counts : List (Request × Scene) → Bool
every_counts [] = true
every_counts ((r, e) ∷ cs) = (e.has_redis && e.rate_counts) && every_counts cs

same_rate-eq : (k j : RateKey) → same_rate k j ≡ true → k ≡ j
same_rate-eq k j h = ground arith

same_rate_sym : (k j : RateKey) → same_rate k j ≡ same_rate j k
same_rate_sym k j = ground arith

same_rate_refl : (k : RateKey) → same_rate k k ≡ true
same_rate_refl k = ground arith

module _ {S : Type 0} (redis : Redis S) (digest : ℕ → ℕ) where
  -- The deliveries under a counter were counted, and are within the limit.
  record Within (k : RateKey) (w : World S) : Type 0 where
    counted_all : limited k w.deliveries ≤ redis.count w.server k
    in_limit : limited k w.deliveries ≤ 20

  deliver-count :
      (k : RateKey) (r : Request) (e : Scene) (w : World S)
      → redis.count (deliver redis digest r e w).0.server k ≡ redis.count w.server k
  unfolding deliver
  deliver-count k r e w =
      ground (arith, redis.count-setex w.server (dedup_key redis digest r) k 300 e.now)

  checked-count :
      (k : RateKey) (r : Request) (e : Scene) (w : World S)
      → redis.count (checked redis digest r e w).0.server k ≡ redis.count w.server k
  checked-count k r e w = ground (arith, deliver-count k r e w)

  deliver-limited :
      (k : RateKey) (r : Request) (e : Scene) (w : World S)
      → limited k (deliver redis digest r e w).0.deliveries
        ≡ limited k w.deliveries
          + (if same_rate k (rate_key redis digest r e) && not (is_exempt r.priority) then 1 else 0)
  unfolding deliver
  deliver-limited k r e w = ground arith

  checked-limited :
      (k : RateKey) (r : Request) (e : Scene) (w : World S)
      → limited k (checked redis digest r e w).0.deliveries
        ≤ limited k w.deliveries
          + (if same_rate k (rate_key redis digest r e) && not (is_exempt r.priority) then 1 else 0)
  checked-limited k r e w = ground (arith, deliver-limited k r e w)

  count-same : (s : S) (k j : RateKey) → same_rate j k ≡ true → redis.count s j ≡ redis.count s k
  count-same s k j h = ap (redis.count s) (same_rate-eq j k h)

  -- Room for one more delivery where a call is one of those that the counter limits.
  abbrev room : Bool → ℕ
  room b = if b then 1 else 0

  checked-Within :
      (k : RateKey) (r : Request) (e : Scene) (w : World S)
      → limited k w.deliveries
          + room (same_rate k (rate_key redis digest r e) && not (is_exempt r.priority))
        ≤ redis.count w.server k
      → limited k w.deliveries
          + room (same_rate k (rate_key redis digest r e) && not (is_exempt r.priority))
        ≤ 20
      → Within k (checked redis digest r e w).0
  checked-Within k r e w h l = record {
    counted_all = omega (arith, h, checked-limited k r e w, checked-count k r e w);
    in_limit = omega (arith, l, checked-limited k r e w);
  }

  exempt-Within :
      (k : RateKey) (r : Request) (e : Scene) (w : World S)
      → is_exempt r.priority ≡ true
      → Within k w
      → Within k (checked redis digest r e w).0
  exempt-Within k r e w x h =
      checked-Within k r e w (ground (arith, h.counted_all)) (ground (arith, h.in_limit))

  abbrev counted_world : RateKey → World S → World S
  counted_world j w = record w { server = redis.incr w.server j }

  incr-Within : (k j : RateKey) (w : World S) → Within k w → Within k (counted_world j w)
  incr-Within k j w h = record {
    counted_all =
        ground (arith, h.counted_all, redis.count-incr w.server j k, count-same w.server k j);
    in_limit = h.in_limit;
  }

  same-room :
      (k j : RateKey) (w : World S)
      → Within k w
      → limited k w.deliveries + room (same_rate k j) ≤ redis.count (redis.incr w.server j) k
  same-room k j w h = ground (
    arith,
    h.counted_all,
    redis.count-incr w.server j k,
    count-same w.server k j,
    same_rate_sym k j,
  )

  same-limit :
      (k j : RateKey) (w : World S)
      → Within k w
      → leb (redis.count (redis.incr w.server j) j) default_rate_limit_per_hour ≡ true
      → limited k w.deliveries + room (same_rate k j) ≤ 20
  same-limit k j w h l = ground (
    arith,
    h.counted_all,
    h.in_limit,
    l,
    redis.count-incr w.server j j,
    same_rate_refl j,
    count-same w.server k j,
    same_rate_sym k j,
  )

  rate-exempt :
      (r : Request) (e : Scene) (s : S)
      → is_exempt r.priority ≡ true
      → check_rate_limit redis digest r e s ≡ (s, true)
  unfolding check_rate_limit
  rate-exempt r e s x = ground arith

  rate-counts :
      (r : Request) (e : Scene) (s : S)
      → (e.has_redis && e.rate_counts) ≡ true
      → is_exempt r.priority ≡ false
      → check_rate_limit redis digest r e s ≡ (
        redis.incr s (rate_key redis digest r e),
        leb
            (redis.count (redis.incr s (rate_key redis digest r e)) (rate_key redis digest r e))
            default_rate_limit_per_hour,
      )
  unfolding check_rate_limit
  rate-counts r e s g x = ground arith

  allowed-Within :
      (k : RateKey) (r : Request) (e : Scene) (w : World S) (b : Bool)
      → leb
          (redis.count
            (redis.incr w.server (rate_key redis digest r e))
            (rate_key redis digest r e))
          default_rate_limit_per_hour
        ≡ b
      → Within k w
      → Within k
          (after_rate redis digest r e w (redis.incr w.server (rate_key redis digest r e), b)).0
  allowed-Within k r e w false l h = incr-Within k (rate_key redis digest r e) w h
  allowed-Within k r e w true l h =
      let j = rate_key redis digest r e in
      checked-Within k r e (counted_world j w)
        (ground (arith, same-room k j w h, (incr-Within k j w h).counted_all))
        (ground (arith, same-limit k j w h l, h.in_limit))

  dispatch-Within :
      (k : RateKey) (r : Request) (e : Scene) (w : World S)
      → (e.has_redis && e.rate_counts) ≡ true
      → Within k w
      → Within k (dispatch redis digest r e w).0
  unfolding dispatch
  dispatch-Within k r e w g h = elim (Bool-cases (is_exempt r.priority)) [
    | inl x ↦
        subst (λ a. Within k (after_rate redis digest r e w a).0) (sym (rate-exempt r e w.server x))
          (exempt-Within k r e w x h)
    | inr x ↦
        subst (λ a. Within k (after_rate redis digest r e w a).0)
          (sym (rate-counts r e w.server g x))
          (allowed-Within k r e w
            (leb
              (redis.count (redis.incr w.server (rate_key redis digest r e))
                (rate_key redis digest r e))
              default_rate_limit_per_hour)
            refl h)
  ]

  dispatches-Within :
      (k : RateKey) (cs : List (Request × Scene)) (w : World S)
      → every_counts cs ≡ true
      → Within k w
      → Within k (dispatches redis digest cs w)
  unfolding dispatches
  dispatches-Within k [] w g h = h
  dispatches-Within k ((r, e) ∷ cs) w g h =
      let counts = e.has_redis && e.rate_counts in
      dispatches-Within k cs (dispatch redis digest r e w).0 (and-right counts (every_counts cs) g)
        (dispatch-Within k r e w (and-left counts (every_counts cs) g) h)

  -- While Redis counts, no user gets more than 20 deliveries by one channel in one hour, those of the
  -- priorities HIGH and URGENT apart, however many notifications are dispatched to whomever.
  pub limited-dispatches :
      (k : RateKey) (cs : List (Request × Scene)) (w : World S)
      → every_counts cs ≡ true
      → limited k w.deliveries ≡ 0
      → limited k (dispatches redis digest cs w).deliveries ≤ 20
  limited-dispatches k cs w g z =
      (dispatches-Within k cs w g
        (record { counted_all = omega (arith, z); in_limit = omega (arith, z) })).in_limit
