-- ===== src/Arrival/Dedup.antt =====
-- `ArrivalDeduplicator` of services/arrival-service/app/core/dedup.py. The Redis server and the digest
-- are parameters. A time is in whole seconds, the server's and the one that a signal claims.
use hot_sot.Base.{ℕ, ◌+◌, ◌/◌, ◌≡◌, Bool, true, false, ◌&&◌, ltb, ◌==◌, if◌then◌else◌}

-- A key: its tenant, and the digest or the idempotency key.
pub record Key : Type 0 where
  pub tenant : ℕ
  pub text : ℕ

abbrev pub same_key : Key → Key → Bool
same_key k j = k.tenant == j.tenant && k.text == j.text

-- A Redis server by its states. A key is there until its expiry, 0 where it was never set.
pub record Redis (S : Type 0) : Type 0 where
  pub exists : S → Key → ℕ → Bool
  pub setex : S → Key → ℕ → ℕ → S
  pub expiry : S → Key → ℕ
  pub exists_until : (s : S) (k : Key) (now : ℕ) → exists s k now ≡ ltb now (expiry s k)
  pub expiry-setex :
      (s : S) (k j : Key) (now seconds : ℕ)
      → expiry (setex s k now seconds) j ≡ (if same_key j k then now + seconds else expiry s j)

pub record Signal : Type 0 where
  pub user_id : ℕ
  pub order_id : ℕ
  pub timestamp : ℕ
  pub tenant_id : ℕ

-- What happens to the commands of a call: no client, all answered, the first or the second raises.
pub data Link : Type 0 where
  no_client up refuses breaks : Link

module _ {S : Type 0} (redis : Redis S) (digest : ℕ → ℕ → ℕ → ℕ) where
  -- `arrival_dedup:{tenant_id}:{dedup_key}`, by the 30 seconds of the signal.
  abbrev pub redis_key : Signal → Key
  redis_key e = record {
    tenant = e.tenant_id;
    text = digest e.user_id e.order_id (e.timestamp / 30);
  }

  -- After `exists` has answered.
  abbrev pub marked : Bool → Key → ℕ → Link → S → S × Bool
  marked true k now link s = (s, true)
  marked false k now up s = (redis.setex s k now 60, false)
  marked false k now no_client s = (s, true)
  marked false k now refuses s = (s, true)
  marked false k now breaks s = (s, true)

  -- `is_duplicate` at a time of the server: what is not known counts as a duplicate.
  unfoldable pub is_duplicate : Signal → ℕ → Link → S → S × Bool
  is_duplicate e now no_client s = (s, true)
  is_duplicate e now refuses s = (s, true)
  is_duplicate e now up s = marked (redis.exists s (redis_key e) now) (redis_key e) now up s
  is_duplicate e now breaks s = marked (redis.exists s (redis_key e) now) (redis_key e) now breaks s
