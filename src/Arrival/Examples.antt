-- ===== src/Arrival/Examples.antt =====
-- A Redis server of keys, signals of arrival, and the theorem on them at concrete inputs.
use hot_sot.Base.{ℕ, ◌+◌, ◌*◌, ◌≡◌, refl, true, false, List, [], ◌∷◌, ltb, if◌then◌else◌, arith}
use hot_sot.Arrival.Dedup.{
  Key, same_key, Redis, Signal, up, breaks, redis_key, marked, is_duplicate,
}
use hot_sot.Arrival.Window.{call, late_write, afters, is_duplicate_again}

abbrev expiry_in : List (Key × ℕ) → Key → ℕ
expiry_in [] j = 0
expiry_in ((k, until) ∷ s) j = if same_key j k then until else expiry_in s j

abbrev server : Redis (List (Key × ℕ))
server = record {
  exists = λ s k now. ltb now (expiry_in s k);
  setex = λ s k now seconds. (k, now + seconds) ∷ s;
  expiry = expiry_in;
  exists_until = λ s k now. refl;
  expiry-setex = λ s k j now seconds. refl;
}

abbrev digest : ℕ → ℕ → ℕ → ℕ
digest user order bucket = user * 1_000_000 + order * 1000 + bucket

abbrev at : ℕ → Signal
at timestamp = record { user_id = 5; order_id = 6; timestamp = timestamp; tenant_id = 2 }

-- Two seconds apart, but in two buckets: both are accepted.
neighbours :
    ((is_duplicate server digest (at 29) 100 up []).1 ≡ false)
    × ((is_duplicate server digest
          (at 31)
          102
          up
          (is_duplicate server digest (at 29) 100 up []).0).1
        ≡ false)
unfolding is_duplicate
neighbours = (refl, refl)

-- Two calls whose `exists` comes before either `setex`: both are accepted.
race :
    (marked server digest false
      (redis_key server digest (at 29))
      100
      up
      (marked server digest false (redis_key server digest (at 29)) 100 up []).0).1
    ≡ false
race = refl

is_duplicate_again_example :
    (is_duplicate server digest (at 10) 130 up (
      afters server digest
        (call (at 20) 110 up ∷ late_write (at 25) 112 ∷ call (at 31) 120 breaks ∷ [])
        (marked server digest false (redis_key server digest (at 5)) 100 up []).0)).1
    ≡ true
is_duplicate_again_example =
    is_duplicate_again server digest (at 5) (at 10) false 100 130 up up
      (call (at 20) 110 up ∷ late_write (at 25) 112 ∷ call (at 31) 120 breaks ∷ []) [] refl refl
      refl (omega arith)
