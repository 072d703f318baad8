-- ===== src/Auth/Admission.antt =====
-- Whom `get_current_user` admits (shared/auth/jwt.py).
use hot_sot.Base.{
  ℕ, ◌≡◌, refl, ap, ◌∙◌, Bool, true, false, not, ◌&&◌, ◌||◌, Option, none, some, ltb, ◌==◌,
  if◌then◌else◌, arith, Option-cases, inl, inr,
}
use hot_sot.Auth.Tokens.{Claims, Settings, Jose, admits, is_access, decode_access_token}
use hot_sot.Auth.Session.{
  Redis, Link, no_client, up, refuses, Admission, user, http, checked, admit, is_revoked,
  get_current_user,
}

abbrev pub is_user : Admission → Bool
is_user (user u) = true
is_user (http code) = false

abbrev pub answered : Link → Bool
answered up = true
answered _ = false

abbrev pub absent : Option ℕ → Bool
absent none = true
absent (some e) = false

module _ {T S : Type 0} (jose : Jose T) (settings : Settings) (redis : Redis S) where
  -- What `decode_access_token` makes of what the secret reads in a token.
  abbrev wanted : ℕ → Option Claims → Option Claims
  wanted now none = none
  wanted now (some c) =
      if is_access c.token_type && admits true (some settings.issuer) now c then some c else none

  decode_wanted :
      (t : T) (now : ℕ) → decode_access_token jose settings now t ≡ wanted now (jose.signed t)
  unfolding decode_access_token
  decode_wanted t now = elim (Option-cases (jose.signed t)) [
    | inl h ↦ ground (arith, jose.decode_signed true (some settings.issuer) now t, h)
    | inr (c, h) ↦ ground (arith, jose.decode_signed true (some settings.issuer) now t, h)
  ]

  checked_lem :
      (now : ℕ) (first second : Link) (s : S) (c : Claims)
      → is_user (checked jose settings redis now first second s c) ≡ (
          (c.jti == 0 || answered first && absent (redis.score s c.jti))
          && not (c.sub == 0)
          && answered second
          && not (ltb now (redis.until s c.sub)))
  unfolding is_revoked
  checked_lem now no_client second s c = ground arith
  checked_lem now up second s c = ground arith
  checked_lem now refuses second s c = ground arith

  -- Whether a payload that the secret reads is to be admitted, by the answers of Redis.
  abbrev pub is_admissible : ℕ → Link → Link → S → Option Claims → Bool
  is_admissible now first second s none = false
  is_admissible now first second s (some c) =
      (is_access c.token_type && admits true (some settings.issuer) now c)
      && (c.jti == 0 || answered first && absent (redis.score s c.jti))
      && not (c.sub == 0)
      && answered second
      && not (ltb now (redis.until s c.sub))

  -- `get_current_user` admits a token, whatever it is, exactly where it is signed with the secret, its payload
  -- is an access token of the issuer whose expiry is not past, it has no identifier or Redis answers that it
  -- is not revoked, it has a subject, and Redis answers that the subject is not revoked.
  pub get_current_user_lem :
      (t : T) (now : ℕ) (first second : Link) (s : S)
      → is_user (get_current_user jose settings redis now first second (some t) s)
        ≡ is_admissible now first second s (jose.signed t)
  unfolding get_current_user
  get_current_user_lem t now first second s =
      ap (λ x. is_user (admit jose settings redis now first second s x)) (decode_wanted t now)
      ∙ by_payload (jose.signed t)
    where
      either :
          (b : Bool) (c : Claims)
          → is_user (admit jose settings redis now first second s (if b then some c else none)) ≡ (
              b
              && (c.jti == 0 || answered first && absent (redis.score s c.jti))
              && not (c.sub == 0)
              && answered second
              && not (ltb now (redis.until s c.sub)))
      either true c = checked_lem now first second s c
      either false c = refl

      by_payload :
          (x : Option Claims)
          → is_user (admit jose settings redis now first second s (wanted now x))
            ≡ is_admissible now first second s x
      by_payload none = refl
      by_payload (some c) =
          either (is_access c.token_type && admits true (some settings.issuer) now c) c

  -- The same for a token that the settings' secret signed.
  pub get_current_user-encode :
      (c : Claims) (now : ℕ) (first second : Link) (s : S)
      → is_user (get_current_user jose settings redis now first second (some (jose.encode c)) s)
        ≡ is_admissible now first second s (some c)
  get_current_user-encode c now first second s =
      get_current_user_lem (jose.encode c) now first second s
      ∙ ap (is_admissible now first second s) (jose.signed-encode c)
