-- ===== src/RedisClient/Server.antt =====
-- The commands of Redis that shared/utils/redis_client.py sends, by what Redis documents of them. A time is
-- in whole seconds of the server's clock, and a text is a number.
use hot_sot.Base.{ℕ, ◌+◌, ◌≡◌, Bool, false, ◌&&◌, Option, none, some, ltb, ◌==◌, if◌then◌else◌}

-- `lock:{key}`, or `{prefix}:{key}` of the cache.
pub data Key : Type 0 where
  lock_key : ℕ → Key
  cache_key : ℕ → ℕ → Key

abbrev pub same_key : Key → Key → Bool
same_key (lock_key a) (lock_key b) = a == b
same_key (cache_key p a) (cache_key q b) = p == q && a == b
same_key _ _ = false

-- A text with the time when it expires.
pub record Entry : Type 0 where
  pub text : ℕ
  pub until : ℕ

-- The entry of a key at a time: an expired one is not there.
abbrev pub live : ℕ → Option Entry → Option Entry
live now none = none
live now (some e) = if ltb now e.until then some e else none

abbrev pub text_of : Option Entry → Option ℕ
text_of none = none
text_of (some e) = some e.text

-- An entry whose time starts again.
abbrev pub renewed : ℕ → Option Entry → Option Entry
renewed until none = none
renewed until (some e) = some (record e { until = until })

-- A Redis server by its states: GET, SET with EX, DEL and EXPIRE of the existing key of a script.
pub record Server (S : Type 0) : Type 0 where
  pub entry : S → Key → Option Entry
  pub get : S → Key → ℕ → Option ℕ
  pub set : S → Key → ℕ → ℕ → ℕ → S
  pub del : S → Key → S
  pub expire : S → Key → ℕ → ℕ → S
  pub get_entry : (s : S) (k : Key) (now : ℕ) → get s k now ≡ text_of (live now (entry s k))
  pub entry-set :
      (s : S) (k j : Key) (text ttl now : ℕ)
      → entry (set s k text ttl now) j
        ≡ (if same_key k j then some (record { text = text; until = now + ttl }) else entry s j)
  pub entry-del :
      (s : S) (k j : Key) → entry (del s k) j ≡ (if same_key k j then none else entry s j)
  pub entry-expire :
      (s : S) (k j : Key) (seconds now : ℕ)
      → entry (expire s k seconds now) j
        ≡ (if same_key k j then renewed (now + seconds) (live now (entry s k)) else entry s j)
