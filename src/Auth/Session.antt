-- ===== src/Auth/Session.antt =====
-- The revocation of tokens and the dependencies that admit a user, of shared/auth/jwt.py, over a Redis server
-- given by the laws of its commands.
use hot_sot.Base.{
  ℕ, ◌≡◌, Bool, true, false, not, ◌&&◌, ◌||◌, Option, none, some, List, [], ◌∷◌, ltb, leb, ◌==◌,
  if◌then◌else◌,
}
use hot_sot.Auth.Tokens.{Claims, Settings, Jose, decode_access_token}

-- The blocklist, a sorted set of token identifiers by their expiry, and the keys of revoked users.
pub record Redis (S : Type 0) : Type 0 where
  pub score : S → ℕ → Option ℕ
  pub until : S → ℕ → ℕ
  pub zadd : S → ℕ → ℕ → S
  pub zremrangebyscore : S → ℕ → S
  pub set_user : S → ℕ → ℕ → ℕ → S
  pub score-zadd :
      (s : S) (jti j exp : ℕ)
      → score (zadd s jti exp) j ≡ (if jti == j then some exp else score s j)
  pub score-zremrangebyscore :
      (s : S) (j limit : ℕ)
      → score (zremrangebyscore s limit) j
        ≡ elim (score s j) [ none ↦ none | some e ↦ if leb e limit then none else some e ]
  pub score-set_user :
      (s : S) (u seconds now j : ℕ) → score (set_user s u seconds now) j ≡ score s j

-- The commands of a call: no client, answered, or refused.
pub data Link : Type 0 where
  no_client up refuses : Link

pub record User : Type 0 where
  pub user_id : ℕ
  pub tenant_id : ℕ
  pub role : ℕ
  pub jti : ℕ

-- What a dependency gives: the user, or the status code of an HTTPException.
pub data Admission : Type 0 where
  user : User → Admission
  http : ℕ → Admission

abbrev is_up : Link → Bool
is_up up = true
is_up _ = false

module _ {T S : Type 0} (jose : Jose T) (settings : Settings) (redis : Redis S) where
  unfoldable pub revoke_token : ℕ → ℕ → Link → S → S × Bool
  revoke_token jti expires_at up s = (redis.zadd s jti expires_at, true)
  revoke_token jti expires_at no_client s = (s, false)
  revoke_token jti expires_at refuses s = (s, false)

  abbrev is_there : Option ℕ → Bool
  is_there none = false
  is_there (some e) = true

  -- `is_revoked`: what is not known counts as revoked.
  unfoldable pub is_revoked : ℕ → Link → S → Bool
  is_revoked jti up s = is_there (redis.score s jti)
  is_revoked jti no_client s = true
  is_revoked jti refuses s = true

  unfoldable pub cleanup_expired : ℕ → Link → S → S
  cleanup_expired current_time up s = redis.zremrangebyscore s current_time
  cleanup_expired current_time no_client s = s
  cleanup_expired current_time refuses s = s

  unfoldable pub revoke_all_user_tokens : ℕ → ℕ → Link → S → S
  revoke_all_user_tokens user_id now up s = redis.set_user s user_id 86_400 now
  revoke_all_user_tokens user_id now no_client s = s
  revoke_all_user_tokens user_id now refuses s = s

  abbrev pub revoke_claims : Option Claims → Link → S → S × Bool
  revoke_claims none link s = (s, false)
  revoke_claims (some c) link s =
      if c.jti == 0 || c.exp == 0 then (s, false) else revoke_token c.jti c.exp link s

  -- `logout`, which decodes without a look at the expiry or the issuer.
  unfoldable pub logout : ℕ → T → Link → S → S × Bool
  unfolding revoke_token
  logout now t link s = revoke_claims (jose.decode false none now t) link s

  abbrev user_of : Claims → User
  user_of c = record { user_id = c.sub; tenant_id = c.tid; role = c.role; jti = c.jti }

  -- The tests of `get_current_user` on the claims of an access token, the two links being those of the two
  -- questions to Redis.
  abbrev pub checked : ℕ → Link → Link → S → Claims → Admission
  checked now first second s c =
      if not (c.jti == 0) && is_revoked c.jti first s
      then http 401
      else (if c.sub == 0
          then http 401
          else (if is_up second && not (ltb now (redis.until s c.sub))
              then user (user_of c)
              else http 401))

  abbrev pub admit : ℕ → Link → Link → S → Option Claims → Admission
  admit now first second s none = http 401
  admit now first second s (some c) = checked now first second s c

  unfoldable pub get_current_user : ℕ → Link → Link → Option T → S → Admission
  unfolding is_revoked
  get_current_user now first second none s = http 401
  get_current_user now first second (some t) s =
      admit now first second s (decode_access_token jose settings now t)

  abbrev pub contains : List ℕ → ℕ → Bool
  contains [] r = false
  contains (x ∷ xs) r = x == r || contains xs r

  -- `require_role`
  unfoldable require_role : List ℕ → Admission → Admission
  require_role allowed_roles (http code) = http code
  require_role allowed_roles (user u) = if contains allowed_roles u.role then user u else http 403

  -- `require_tenant`
  unfoldable require_tenant : Admission → Admission
  require_tenant (http code) = http code
  require_tenant (user u) = if u.tenant_id == 0 then http 403 else user u

  -- `extract_tenant_id`, by the token of a Bearer header.
  unfoldable extract_tenant_id : ℕ → Option T → Option ℕ
  extract_tenant_id now none = none
  extract_tenant_id now (some t) = elim (jose.decode true none now t) [
    | none ↦ none
    | some c ↦ some c.tid
  ]

  unfoldable extract_user_context : ℕ → Option T → Option User
  extract_user_context now none = none
  extract_user_context now (some t) = elim (jose.decode true none now t) [
    | none ↦ none
    | some c ↦ some (user_of c)
  ]
