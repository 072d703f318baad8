-- ===== src/Auth/Examples.antt =====
-- A jose package whose tokens are the claims, a Redis server, and the theorems at concrete inputs
-- (shared/auth/jwt.py).
use hot_sot.Base.{
  ℕ, ◌+◌, ◌≡◌, refl, Bool, true, false, Option, none, some, List, [], ◌∷◌, leb, ◌==◌, if◌then◌else◌,
}
use hot_sot.Auth.Tokens.{
  TokenType, access, refresh, Claims, Settings, Jose, admitted, create_access_token,
  create_refresh_token, decode_access_token, refresh_access_token,
}
use hot_sot.Auth.Session.{
  Redis, up, refuses, logout, revoke_token, get_current_user, is_revoked, cleanup_expired,
}
use hot_sot.Auth.Admission.{is_user, is_admissible, get_current_user_lem}
use hot_sot.Auth.Revoked.{Op, log_out, clean, revoke_all, run, logout_refuses, refresh_after_logout}

abbrev jose : Jose Claims
jose = record {
  encode = λ c. c;
  signed = λ c. some c;
  decode = λ v i now c. admitted v i now (some c);
  signed-encode = λ c. refl;
  decode_signed = λ v i now c. refl;
}

abbrev score_in : List (ℕ × Option ℕ) → ℕ → Option ℕ
score_in [] j = none
score_in ((k, e) ∷ s) j = if k == j then e else score_in s j

abbrev past : ℕ → Option ℕ → Option ℕ
past limit none = none
past limit (some e) = if leb e limit then none else some e

abbrev clear : ℕ → List (ℕ × Option ℕ) → List (ℕ × Option ℕ)
clear limit [] = []
clear limit ((k, e) ∷ s) = (k, past limit e) ∷ clear limit s

abbrev until_in : List (ℕ × ℕ) → ℕ → ℕ
until_in [] u = 0
until_in ((v, t) ∷ s) u = if v == u then t else until_in s u

score-clear :
    (s : List (ℕ × Option ℕ)) (j limit : ℕ)
    → score_in (clear limit s) j
      ≡ elim (score_in s j) [ none ↦ none | some e ↦ if leb e limit then none else some e ]
score-clear [] j limit = refl
score-clear ((k, e) ∷ s) j limit = choose (k == j) (score-clear s j limit)
  where
    choose :
        (b : Bool)
        → score_in (clear limit s) j ≡ past limit (score_in s j)
        → (if b then past limit e else score_in (clear limit s) j)
          ≡ past limit (if b then e else score_in s j)
    choose true h = refl
    choose false h = h

abbrev settings : Settings
settings = record { access_token_expire_minutes = 60; refresh_token_expire_days = 7; issuer = 3 }

abbrev Store : Type 0
Store = List (ℕ × Option ℕ) × List (ℕ × ℕ)

abbrev server : Redis Store
server = record {
  score = λ s j. score_in s.0 j;
  until = λ s u. until_in s.1 u;
  zadd = λ s j e. ((j, some e) ∷ s.0, s.1);
  zremrangebyscore = λ s limit. (clear limit s.0, s.1);
  set_user = λ s u seconds now. (s.0, (u, now + seconds) ∷ s.1);
  score-zadd = λ s k j e. refl;
  score-zremrangebyscore = λ s j limit. score-clear s.0 j limit;
  score-set_user = λ s u seconds now j. refl;
}

abbrev empty : Store
empty = ([], [])

abbrev claims : TokenType → ℕ → Claims
claims kind jti = record {
  sub = 5;
  tid = 1;
  role = 2;
  exp = 5000;
  iat = 1000;
  jti = jti;
  iss = 3;
  token_type = kind;
  extra = (8, 9) ∷ [];
}

get_current_user_lem_example :
    is_user (get_current_user jose settings server 2000 up refuses (some (claims access 70)) empty)
    ≡ is_admissible jose settings server 2000 up refuses empty (some (claims access 70))
get_current_user_lem_example =
    get_current_user_lem jose settings server (claims access 70) 2000 up refuses empty

admitted_first :
    is_user (get_current_user jose settings server 2000 up up (some (claims access 70)) empty)
    ≡ true
unfolding get_current_user decode_access_token is_revoked
admitted_first = refl

logout_answers : (logout jose settings server 2000 (claims access 70) up empty).1 ≡ true
unfolding logout revoke_token
logout_answers = refl

abbrev calls : List (Op Claims)
calls = clean 4000 up ∷ log_out 4100 (claims refresh 71) up ∷ revoke_all 6 4200 up ∷ []

logout_refuses_example :
    is_user (
      get_current_user jose settings server 4500 up up (some (claims access 70)) (
        run jose settings server calls
          (logout jose settings server 2000 (claims access 70) up empty).0))
    ≡ false
logout_refuses_example =
    logout_refuses jose settings server (claims access 70) 2000 4500 up up up calls empty
      logout_answers refl

refresh_after_logout_example :
    (refresh_access_token jose settings 2000 90 91 (claims refresh 71)
      ≡ some (
        create_access_token jose settings 5 1 2 ((8, 9) ∷ []) 2000 90,
        create_refresh_token jose settings 5 1 2 [] 2000 91,
      ))
    × (is_user (
          get_current_user jose settings server 2000 up up
            (some (create_access_token jose settings 5 1 2 ((8, 9) ∷ []) 2000 90))
            (logout jose settings server 2000 (claims refresh 71) up empty).0)
        ≡ true)
unfolding logout revoke_token
refresh_after_logout_example =
    refresh_after_logout jose settings server (claims refresh 71) 2000 90 91 empty refl refl refl
      refl refl

-- A cleanup in the second of the expiry takes the entry, and the token is admitted in this second.
revived :
    is_user (
      get_current_user jose settings server 5000 up up (some (claims access 70)) (
        run jose settings server
          (clean 5000 up ∷ [])
          (logout jose settings server 2000 (claims access 70) up empty).0))
    ≡ true
unfolding run logout revoke_token get_current_user decode_access_token is_revoked cleanup_expired
revived = refl
