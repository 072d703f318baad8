-- ===== src/Auth/Tokens.antt =====
-- The tokens of shared/auth/jwt.py over the jose package, which is a parameter. A time is in whole seconds; a
-- text is a number, and the empty text is 0.
use hot_sot.Base.{
  ℕ, ◌+◌, ◌*◌, ◌≡◌, Bool, true, false, not, ◌&&◌, Option, none, some, List, [], ltb, ◌==◌,
  if◌then◌else◌,
}

pub data TokenType : Type 0 where
  access refresh : TokenType
  other_type : ℕ → TokenType

-- The claims of a payload that has them all; `extra` are the claims of other names.
pub record Claims : Type 0 where
  pub sub : ℕ
  pub tid : ℕ
  pub role : ℕ
  pub exp : ℕ
  pub iat : ℕ
  pub jti : ℕ
  pub iss : ℕ
  pub token_type : TokenType
  pub extra : List (ℕ × ℕ)

-- The settings: minutes of an access token, days of a refresh token, and the issuer.
pub record Settings : Type 0 where
  pub access_token_expire_minutes : ℕ
  pub refresh_token_expire_days : ℕ
  pub issuer : ℕ

-- What `jwt.decode` checks of signed claims: the expiry, if asked, which is in the past only after its second,
-- and the issuer, if one is given.
abbrev pub admits : Bool → Option ℕ → ℕ → Claims → Bool
admits verify_exp none now c = not (verify_exp && ltb c.exp now)
admits verify_exp (some i) now c = not (verify_exp && ltb c.exp now) && c.iss == i

abbrev pub admitted : Bool → Option ℕ → ℕ → Option Claims → Option Claims
admitted verify_exp issuer now none = none
admitted verify_exp issuer now (some c) = if admits verify_exp issuer now c then some c else none

-- The jose package with the secret: `signed` reads a token of this secret.
pub record Jose (T : Type 0) : Type 0 where
  pub encode : Claims → T
  pub signed : T → Option Claims
  pub decode : Bool → Option ℕ → ℕ → T → Option Claims
  pub signed-encode : (c : Claims) → signed (encode c) ≡ some c
  pub decode_signed :
      (v : Bool) (i : Option ℕ) (now : ℕ) (t : T) → decode v i now t ≡ admitted v i now (signed t)

abbrev pub is_access : TokenType → Bool
is_access access = true
is_access _ = false

abbrev is_refresh : TokenType → Bool
is_refresh refresh = true
is_refresh _ = false

module _ {T : Type 0} (jose : Jose T) (settings : Settings) where
  -- The claims of `create_access_token`, with the clock and the new identifier.
  abbrev pub access_claims : ℕ → ℕ → ℕ → List (ℕ × ℕ) → ℕ → ℕ → Claims
  access_claims user_id tenant_id role extra_claims now jti = record {
    sub = user_id;
    tid = tenant_id;
    role = role;
    exp = now + settings.access_token_expire_minutes * 60;
    iat = now;
    jti = jti;
    iss = settings.issuer;
    token_type = access;
    extra = extra_claims;
  }

  unfoldable pub create_access_token : ℕ → ℕ → ℕ → List (ℕ × ℕ) → ℕ → ℕ → T
  create_access_token user_id tenant_id role extra_claims now jti =
      jose.encode (access_claims user_id tenant_id role extra_claims now jti)

  abbrev refresh_claims : ℕ → ℕ → ℕ → List (ℕ × ℕ) → ℕ → ℕ → Claims
  refresh_claims user_id tenant_id role extra_claims now jti = record {
    sub = user_id;
    tid = tenant_id;
    role = role;
    exp = now + settings.refresh_token_expire_days * 86_400;
    iat = now;
    jti = jti;
    iss = settings.issuer;
    token_type = refresh;
    extra = extra_claims;
  }

  unfoldable pub create_refresh_token : ℕ → ℕ → ℕ → List (ℕ × ℕ) → ℕ → ℕ → T
  create_refresh_token user_id tenant_id role extra_claims now jti =
      jose.encode (refresh_claims user_id tenant_id role extra_claims now jti)

  abbrev only : (TokenType → Bool) → Option Claims → Option Claims
  only wanted none = none
  only wanted (some c) = if wanted c.token_type then some c else none

  -- `decode_access_token`; none is the HTTPException of 401.
  unfoldable pub decode_access_token : ℕ → T → Option Claims
  decode_access_token now t = only is_access (jose.decode true (some settings.issuer) now t)

  unfoldable pub decode_refresh_token : ℕ → T → Option Claims
  decode_refresh_token now t = only is_refresh (jose.decode true (some settings.issuer) now t)

  abbrev pub pair : Option Claims → ℕ → ℕ → ℕ → Option (T × T)
  pair none now jti jti' = none
  pair (some c) now jti jti' = some (
    jose.encode (access_claims c.sub c.tid c.role c.extra now jti),
    jose.encode (refresh_claims c.sub c.tid c.role [] now jti'),
  )

  -- `refresh_access_token`, with the two new identifiers.
  unfoldable pub refresh_access_token : ℕ → ℕ → ℕ → T → Option (T × T)
  unfolding decode_refresh_token
  refresh_access_token now jti jti' t = pair (decode_refresh_token now t) now jti jti'
