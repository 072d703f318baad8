-- ===== src/Auth/Revoked.antt =====
-- What a logout revokes (shared/auth/jwt.py).
use hot_sot.Base.{
  ℕ, ◌≡◌, refl, sym, ap, ◌∙◌, Bool, true, false, not, ◌&&◌, ◌||◌, Option, none, some, List, [], ◌∷◌,
  ltb, ◌==◌, arith, and-left, and-right,
}
use hot_sot.Auth.Tokens.{
  refresh, Claims, Settings, Jose, admits, admitted, is_access, access_claims, create_access_token,
  create_refresh_token, pair, decode_refresh_token, refresh_access_token,
}
use hot_sot.Auth.Session.{
  Redis, Link, no_client, up, refuses, revoke_token, revoke_claims, cleanup_expired,
  revoke_all_user_tokens, logout, get_current_user,
}
use hot_sot.Auth.Admission.{is_user, answered, absent, get_current_user-encode}

pub data Op (T : Type 0) : Type 0 where
  log_out : ℕ → T → Link → Op T
  clean : ℕ → Link → Op T
  revoke_all : ℕ → ℕ → Link → Op T

module _ {T S : Type 0} (jose : Jose T) (settings : Settings) (redis : Redis S) where
  abbrev step : Op T → S → S
  step (log_out now t link) s = (logout jose settings redis now t link s).0
  step (clean current_time link) s = cleanup_expired jose settings redis current_time link s
  step (revoke_all user_id now link) s =
      revoke_all_user_tokens jose settings redis user_id now link s

  unfoldable pub run : List (Op T) → S → S
  run [] s = s
  run (o ∷ os) s = run os (step o s)

  abbrev same_token : ℕ → ℕ → Option Claims → Bool
  same_token jti exp none = true
  same_token jti exp (some c) = not (c.jti == jti) || c.exp == exp

  -- Whether a call spares an entry of the blocklist: no cleanup from its expiry on, and no other token with its
  -- identifier.
  abbrev pub spares : ℕ → ℕ → Op T → Bool
  spares jti exp (log_out now t link) = same_token jti exp (jose.signed t)
  spares jti exp (clean current_time link) = ltb current_time exp
  spares jti exp (revoke_all user_id now link) = true

  abbrev every_spares : ℕ → ℕ → List (Op T) → Bool
  every_spares jti exp [] = true
  every_spares jti exp (o ∷ os) = spares jti exp o && every_spares jti exp os

  abbrev Listed : ℕ → ℕ → S → Type 0
  Listed jti exp s = redis.score s jti ≡ some exp

  zadd-Listed :
      (jti exp j e : ℕ) (s : S)
      → (not (j == jti) || e == exp) ≡ true
      → Listed jti exp s
      → Listed jti exp (redis.zadd s j e)
  zadd-Listed jti exp j e s g h = ground (arith, redis.score-zadd s j jti e)

  revoke-Listed :
      (jti exp : ℕ) (x : Option Claims) (link : Link) (s : S)
      → same_token jti exp x ≡ true
      → Listed jti exp s
      → Listed jti exp (revoke_claims jose settings redis x link s).0
  unfolding revoke_token
  revoke-Listed jti exp none link s g h = h
  revoke-Listed jti exp (some c) no_client s g h = ground (arith, h)
  revoke-Listed jti exp (some c) refuses s g h = ground (arith, h)
  revoke-Listed jti exp (some c) up s g h = ground (arith, zadd-Listed jti exp c.jti c.exp s g h)

  unexpired : (x : Option Claims) (now : ℕ) → admitted false none now x ≡ x
  unexpired none now = refl
  unexpired (some c) now = refl

  decode-unexpired : (now : ℕ) (t : T) → jose.decode false none now t ≡ jose.signed t
  decode-unexpired now t = jose.decode_signed false none now t ∙ unexpired (jose.signed t) now

  step-Listed :
      (jti exp : ℕ) (o : Op T) (s : S)
      → spares jti exp o ≡ true
      → Listed jti exp s
      → Listed jti exp (step o s)
  unfolding logout cleanup_expired revoke_all_user_tokens
  step-Listed jti exp (log_out now t link) s g h =
      revoke-Listed jti exp (jose.decode false none now t) link s
        (ap (same_token jti exp) (decode-unexpired now t) ∙ g) h
  step-Listed jti exp (clean current_time no_client) s g h = h
  step-Listed jti exp (clean current_time refuses) s g h = h
  step-Listed jti exp (clean current_time up) s g h =
      ground (arith, redis.score-zremrangebyscore s jti current_time)
  step-Listed jti exp (revoke_all user_id now no_client) s g h = h
  step-Listed jti exp (revoke_all user_id now refuses) s g h = h
  step-Listed jti exp (revoke_all user_id now up) s g h =
      redis.score-set_user s user_id 86_400 now jti ∙ h

  run-Listed :
      (jti exp : ℕ) (os : List (Op T)) (s : S)
      → every_spares jti exp os ≡ true
      → Listed jti exp s
      → Listed jti exp (run os s)
  unfolding run
  run-Listed jti exp [] s g h = h
  run-Listed jti exp (o ∷ os) s g h =
      run-Listed jti exp os (step o s) (and-right (spares jti exp o) (every_spares jti exp os) g)
        (step-Listed jti exp o s (and-left (spares jti exp o) (every_spares jti exp os) g) h)

  revoke-lists :
      (c : Claims) (link : Link) (s : S)
      → (revoke_claims jose settings redis (some c) link s).1 ≡ true
      → (Listed c.jti c.exp (revoke_claims jose settings redis (some c) link s).0)
        × ((c.jti == 0) ≡ false)
  unfolding revoke_token
  revoke-lists c no_client s h = absurd (ground arith)
  revoke-lists c refuses s h = absurd (ground arith)
  revoke-lists c up s h = ground (arith, redis.score-zadd s c.jti c.jti c.exp)

  logout-lists :
      (c : Claims) (now : ℕ) (link : Link) (s : S)
      → (logout jose settings redis now (jose.encode c) link s).1 ≡ true
      → (Listed c.jti c.exp (logout jose settings redis now (jose.encode c) link s).0)
        × ((c.jti == 0) ≡ false)
  unfolding logout
  logout-lists c now link s h =
      let e : jose.decode false none now (jose.encode c) ≡ some c =
        decode-unexpired now (jose.encode c) ∙ jose.signed-encode c in
      let r =
        revoke-lists c link s
          (ap (λ x. (revoke_claims jose settings redis x link s).1) (sym e) ∙ h) in
      (ap (λ x. redis.score (revoke_claims jose settings redis x link s).0 c.jti) e ∙ r.0, r.1)

  -- After a logout that returned True the token is refused, at every time and whatever Redis answers then, through
  -- any logouts, cleanups and revocations of users, unless a cleanup comes at its expiry or later or another
  -- token has its identifier.
  pub logout_refuses :
      (c : Claims) (now later : ℕ) (link first second : Link) (os : List (Op T)) (s : S)
      → (logout jose settings redis now (jose.encode c) link s).1 ≡ true
      → every_spares c.jti c.exp os ≡ true
      → is_user (
          get_current_user jose settings redis later first second
            (some (jose.encode c))
            (run os (logout jose settings redis now (jose.encode c) link s).0))
        ≡ false
  logout_refuses c now later link first second os s h g =
      let l = logout-lists c now link s h in
      let s' = run os (logout jose settings redis now (jose.encode c) link s).0 in
      let listed =
        run-Listed c.jti c.exp os (logout jose settings redis now (jose.encode c) link s).0 g l.0 in
      get_current_user-encode jose settings redis c later first second s'
      ∙ refused (is_access c.token_type && admits true (some settings.issuer) later c) (c.jti == 0)
          (answered first) (absent (redis.score s' c.jti)) (not (c.sub == 0)) (answered second)
          (not (ltb later (redis.until s' c.sub))) l.1 (ap absent listed)
    where
      refused :
          (a b d e x y z : Bool)
          → b ≡ false
          → e ≡ false
          → (a && (b || d && e) && x && y && z) ≡ false
      refused a b d e x y z p q = ground arith

  decode_refresh :
      (c : Claims) (now : ℕ)
      → c.token_type ≡ refresh
      → admits true (some settings.issuer) now c ≡ true
      → decode_refresh_token jose settings now (jose.encode c) ≡ some c
  unfolding decode_refresh_token
  decode_refresh c now r a = ground (
    arith,
    jose.decode_signed true (some settings.issuer) now (jose.encode c),
    jose.signed-encode c,
  )

  new_admitted :
      (c : Claims) (now jti : ℕ) (s : S)
      → absent (redis.score s jti) ≡ true
      → (c.sub == 0) ≡ false
      → ltb now (redis.until s c.sub) ≡ false
      → is_user (
          get_current_user jose settings redis now up up
            (some (jose.encode (access_claims jose settings c.sub c.tid c.role c.extra now jti)))
            s)
        ≡ true
  new_admitted c now jti s n u k =
      get_current_user-encode jose settings redis
        (access_claims jose settings c.sub c.tid c.role c.extra now jti) now up up s
      ∙ ground (arith, n, u, k)

  -- A refresh token of an unrevoked user is still exchanged after it was revoked by `logout`, and the new access
  -- token is admitted: `refresh_access_token` does not ask for revocations.
  pub refresh_after_logout :
      (c : Claims) (now jti jti' : ℕ) (s : S)
      → c.token_type ≡ refresh
      → admits true (some settings.issuer) now c ≡ true
      → absent (redis.score (logout jose settings redis now (jose.encode c) up s).0 jti) ≡ true
      → (c.sub == 0) ≡ false
      → ltb now (redis.until (logout jose settings redis now (jose.encode c) up s).0 c.sub) ≡ false
      → (refresh_access_token jose settings now jti jti' (jose.encode c)
          ≡ some (
            create_access_token jose settings c.sub c.tid c.role c.extra now jti,
            create_refresh_token jose settings c.sub c.tid c.role [] now jti',
          ))
        × (is_user (
              get_current_user jose settings redis now up up
                (some (create_access_token jose settings c.sub c.tid c.role c.extra now jti))
                (logout jose settings redis now (jose.encode c) up s).0)
            ≡ true)
  unfolding refresh_access_token create_access_token create_refresh_token
  refresh_after_logout c now jti jti' s r a n u k = (
    ap (λ x. pair jose settings x now jti jti') (decode_refresh c now r a),
    new_admitted c now jti (logout jose settings redis now (jose.encode c) up s).0 n u k,
  )
