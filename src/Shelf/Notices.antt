-- ===== src/Shelf/Notices.antt =====
-- How often and in which order the worker publishes
-- (services/shelf-service/app/core/ttl_worker.py).
use hot_sot.Base.{
  suc, ◌&&◌, ℕ, ◌+◌, ◌≤◌, ◌<◌, ◌≡◌, refl, Bool, true, false, Option, none, some, List, [], ◌∷◌,
  arith, if◌then◌else◌,
}
use hot_sot.Shelf.Ttl.{Info, has_used, Level, ok, info, warning, critical}
use hot_sot.Shelf.Worker.{
  Notice, expiry_warning, expired, mark, process_key, scans, Turn, scan, extend,
}

abbrev pub same_level : Level → Level → Bool
same_level info info = true
same_level warning warning = true
same_level critical critical = true
same_level ok ok = true
same_level _ _ = false

abbrev pub is_warning : Level → Notice → Bool
is_warning l (expiry_warning k) = same_level l k
is_warning l expired = false

abbrev pub is_expired_notice : Notice → Bool
is_expired_notice expired = true
is_expired_notice (expiry_warning k) = false

-- How many events of a list pass a test.
abbrev pub count : (Notice → Bool) → List Notice → ℕ
count p [] = 0
count p (n ∷ ns) = (if p n then 1 else 0) + count p ns

-- Whether a key has no warning of a level left to give: it was recorded, or the key is gone.
abbrev spent : Level → Option Info → ℕ
spent l none = 1
spent critical (some i) = if i.warning_90_sent then 1 else 0
spent warning (some i) = if i.warning_75_sent then 1 else 0
spent info (some i) = if i.warning_50_sent then 1 else 0
spent ok (some i) = 0

abbrev gone : Option Info → ℕ
gone none = 1
gone (some i) = 0

-- Whether Redis takes the writes of all scans.
abbrev pub all_taken : List Turn → Bool
all_taken [] = true
all_taken (scan now writes ∷ ts) = writes && all_taken ts
all_taken (extend n ∷ ts) = all_taken ts

-- The number of extensions.
abbrev pub extensions : List Turn → ℕ
extensions [] = 0
extensions (scan now writes ∷ ts) = extensions ts
extensions (extend n ∷ ts) = suc (extensions ts)

-- At 90 percent and more the first of the unsent levels is published, in the order of the code.
module _ (i : Info) (now : ℕ) (p : 0 < i.ttl_seconds) (h : has_used 90 i now ≡ true)
    (k : has_used 100 i now ≡ false) where
  process_critical :
      i.warning_90_sent ≡ false
      → process_key (some i) now true ≡ (some (mark critical i), some (expiry_warning critical))
  unfolding process_key
  process_critical a = ground arith

  process_warning :
      i.warning_90_sent ≡ true
      → i.warning_75_sent ≡ false
      → process_key (some i) now true ≡ (some (mark warning i), some (expiry_warning warning))
  unfolding process_key
  process_warning a b = ground arith

  process_info :
      i.warning_90_sent ≡ true
      → i.warning_75_sent ≡ true
      → i.warning_50_sent ≡ false
      → process_key (some i) now true ≡ (some (mark info i), some (expiry_warning info))
  unfolding process_key
  process_info a b c = ground arith

has_used_later :
    (q : ℕ) (i : Info) (t u : ℕ) → t ≤ u → has_used q i t ≡ true → has_used q i u ≡ true
has_used_later q i t u h e = ground arith

has_used_earlier :
    (q : ℕ) (i : Info) (t u : ℕ) → t ≤ u → has_used q i u ≡ false → has_used q i t ≡ false
has_used_earlier q i t u h e = ground arith

-- A key that is first scanned late, with between 90 and 100 percent of its TTL used at three scans,
-- gets its warnings in falling severity: CRITICAL, then WARNING, then INFO.
pub scans_late :
    (i : Info) (t u v : ℕ)
    → 0 < i.ttl_seconds
    → i.warning_50_sent ≡ false
    → i.warning_75_sent ≡ false
    → i.warning_90_sent ≡ false
    → has_used 90 i t ≡ true
    → t ≤ u
    → u ≤ v
    → has_used 100 i v ≡ false
    → scans (some i) (scan t true ∷ scan u true ∷ scan v true ∷ [])
      ≡ expiry_warning critical ∷ expiry_warning warning ∷ expiry_warning info ∷ []
unfolding scans mark
scans_late i t u v p a b c h tu uv k =
    let j = mark critical i in
    let l = mark warning j in
    let late_u = has_used_later 90 i t u tu h in
    let late_v = has_used_later 90 i u v uv late_u in
    let early_u = has_used_earlier 100 i u v uv k in
    let early_t = has_used_earlier 100 i t u tu early_u in
    rw (
      process_critical i t p h early_t c,
      process_warning j u p late_u early_u refl b,
      process_info l v p late_v k refl refl a,
    )
