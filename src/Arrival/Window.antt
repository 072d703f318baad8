-- ===== src/Arrival/Window.antt =====
-- What the deduplication of arrivals promises
-- (services/arrival-service/app/core/dedup.py).
use hot_sot.Base.{
  and-left, and-right, not, ◌&&◌, ℕ, ◌+◌, ◌≤◌, ◌<◌, ◌≡◌, refl, sym, ap, ◌∙◌, Bool, true, false,
  List, [], ◌∷◌, ltb, arith, Bool-cases, inl, inr,
}
use hot_sot.Arrival.Dedup.{
  Key, same_key, Redis, Signal, Link, no_client, up, refuses, breaks, redis_key, marked,
  is_duplicate,
}

same_key_refl : (k : Key) → same_key k k ≡ true
same_key_refl k = ground arith

same_key-eq : (k j : Key) → same_key k j ≡ true → k ≡ j
same_key-eq k j h = ground arith

not_before : (a b : ℕ) → ltb a b ≡ false → b ≤ a
not_before a b h = ground arith

before : (a b : ℕ) → a < b → ltb a b ≡ true
before a b h = ground arith

pub data Event : Type 0 where
  call : Signal → ℕ → Link → Event
  late_write : Signal → ℕ → Event

-- Whether the writes on their own come at a time or after it.
abbrev pub writes_from : ℕ → List Event → Bool
writes_from start [] = true
writes_from start (call e now link ∷ es) = writes_from start es
writes_from start (late_write e now ∷ es) = not (ltb now start) && writes_from start es

module _ {S : Type 0} (redis : Redis S) (digest : ℕ → ℕ → ℕ → ℕ) where
  -- One event on the server: a whole call, or the SETEX of a call whose EXISTS was answered before.
  unfoldable pub after : Event → S → S
  after (call e now link) s = (is_duplicate redis digest e now link s).0
  after (late_write e now) s = (marked redis digest false (redis_key redis digest e) now up s).0

  unfoldable pub afters : List Event → S → S
  afters [] s = s
  afters (e ∷ es) s = afters es (after e s)

  marked-expiry :
      (b : Bool) (k j : Key) (now : ℕ) (link : Link) (s : S)
      → redis.exists s k now ≡ b
      → redis.expiry s j ≤ redis.expiry (marked redis digest b k now link s).0 j
  marked-expiry true k j now link s h = omega arith
  marked-expiry false k j now no_client s h = omega arith
  marked-expiry false k j now refuses s h = omega arith
  marked-expiry false k j now breaks s h = omega arith
  marked-expiry false k j now up s h = elim (Bool-cases (same_key j k)) [
    | inl same ↦
        let e : j ≡ k = same_key-eq j k same in
        let old : redis.expiry s k ≤ now =
          not_before now (redis.expiry s k) (sym (redis.exists_until s k now) ∙ h) in
        rw (redis.expiry-setex, same) (omega (arith, ap (redis.expiry s) e, old))
    | inr other ↦ rw (redis.expiry-setex, other) (omega arith)
  ]

  call-expiry :
      (e : Signal) (now : ℕ) (link : Link) (s : S) (j : Key)
      → redis.expiry s j ≤ redis.expiry (is_duplicate redis digest e now link s).0 j
  unfolding is_duplicate
  call-expiry e now no_client s j = omega arith
  call-expiry e now refuses s j = omega arith
  call-expiry e now up s j =
      marked-expiry (redis.exists s (redis_key redis digest e) now) (redis_key redis digest e) j now
        up s refl
  call-expiry e now breaks s j =
      marked-expiry (redis.exists s (redis_key redis digest e) now) (redis_key redis digest e) j now
        breaks s refl

  late-expiry :
      (e : Signal) (now : ℕ) (s : S) (j : Key) (end start : ℕ)
      → end ≤ start + 60
      → not (ltb now start) ≡ true
      → end ≤ redis.expiry s j
      → end ≤ redis.expiry (after (late_write e now) s) j
  unfolding after
  late-expiry e now s j end start h g k = rw (redis.expiry-setex) (ground (arith, h, g, k))

  afters-expiry :
      (es : List Event) (s : S) (j : Key) (end start : ℕ)
      → end ≤ start + 60
      → writes_from start es ≡ true
      → end ≤ redis.expiry s j
      → end ≤ redis.expiry (afters es s) j
  unfolding afters after
  afters-expiry [] s j end start h g k = k
  afters-expiry (call e now link ∷ es) s j end start h g k =
      afters-expiry es (is_duplicate redis digest e now link s).0 j end start h g
        (omega (arith, call-expiry e now link s j, k))
  afters-expiry (late_write e now ∷ es) s j end start h g k =
      afters-expiry es (after (late_write e now) s) j end start h
        (and-right (not (ltb now start)) (writes_from start es) g)
        (late-expiry e now s j end start h (and-left (not (ltb now start)) (writes_from start es) g)
          k)

  marked-accepted :
      (b : Bool) (k : Key) (now : ℕ) (link : Link) (s : S)
      → (marked redis digest b k now link s).1 ≡ false
      → redis.expiry (marked redis digest b k now link s).0 k ≡ now + 60
  marked-accepted true k now link s h = absurd cc
  marked-accepted false k now no_client s h = absurd cc
  marked-accepted false k now refuses s h = absurd cc
  marked-accepted false k now breaks s h = absurd cc
  marked-accepted false k now up s h = rw (redis.expiry-setex, same_key_refl) refl

  present :
      (e : Signal) (now : ℕ) (link : Link) (s : S)
      → now < redis.expiry s (redis_key redis digest e)
      → (is_duplicate redis digest e now link s).1 ≡ true
  unfolding is_duplicate
  present e now no_client s h = refl
  present e now refuses s h = refl
  present e now up s h =
      rw (redis.exists_until, before now (redis.expiry s (redis_key redis digest e)) h) refl
  present e now breaks s h =
      rw (redis.exists_until, before now (redis.expiry s (redis_key redis digest e)) h) refl

  -- After the SETEX of an accepted signal, whatever EXISTS saw before it, and whatever calls and late writes of
  -- other calls follow, the writes at no earlier time, each call that begins then with a signal of the same key,
  -- that of its tenant, user, order and 30 seconds, is a duplicate for 60 seconds of the server's clock, also
  -- where Redis fails.
  pub is_duplicate_again :
      (e f : Signal) (seen : Bool) (now later : ℕ) (first second : Link) (between : List Event)
      (s : S)
      → (marked redis digest seen (redis_key redis digest e) now first s).1 ≡ false
      → redis_key redis digest f ≡ redis_key redis digest e
      → writes_from now between ≡ true
      → later < now + 60
      → (is_duplicate redis digest f later second
          (afters between (marked redis digest seen (redis_key redis digest e) now first s).0)).1
        ≡ true
  is_duplicate_again e f seen now later first second between s ok same from soon =
      let t = (marked redis digest seen (redis_key redis digest e) now first s).0 in
      let accepted = marked-accepted seen (redis_key redis digest e) now first s ok in
      present f later second (afters between t) (
        omega (
          arith,
          ap (redis.expiry (afters between t)) same,
          afters-expiry between t (redis_key redis digest e) (now + 60) now (omega arith) from
              (omega (arith, accepted)),
          soon,
        ))
