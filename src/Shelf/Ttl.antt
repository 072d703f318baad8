-- ===== src/Shelf/Ttl.antt =====
-- `TTLEngine` of services/shelf-service/app/core/ttl_engine.py. A time is in microseconds, a TTL in
-- whole seconds. Identifiers are numbers; a key "tenant:shelf" is the pair. What Redis answers is an
-- argument, and what is written to it is part of the result.
use hot_sot.Base.{
  ℕ, ◌+◌, ◌-◌, ◌*◌, ◌/◌, Bool, true, false, ◌&&◌, ◌||◌, Option, none, some, List, [], ◌∷◌, ltb, leb,
  ◌==◌, if◌then◌else◌,
}

abbrev pub second : ℕ
second = 1_000_000

pub data Zone : Type 0 where
  hot cold ambient elsewhere : Zone

-- `SHELF_TTL_SECONDS.get(zone, 600)`
unfoldable pub ttl_of : Zone → ℕ
ttl_of hot = 600
ttl_of cold = 900
ttl_of ambient = 1200
ttl_of elsewhere = 600

abbrev pub warm_station_extension : ℕ
warm_station_extension = 300

pub record Info : Type 0 where
  pub shelf_id : ℕ
  pub order_id : ℕ
  pub zone : Zone
  pub kitchen_id : ℕ
  pub ttl_seconds : ℕ
  pub assigned_at : ℕ
  pub expires_at : ℕ
  pub warning_50_sent : Bool
  pub warning_75_sent : Bool
  pub warning_90_sent : Bool

pub record Key : Type 0 where
  pub tenant : ℕ
  pub shelf : ℕ

abbrev pub same_key : Key → Key → Bool
same_key k j = k.tenant == j.tenant && k.shelf == j.shelf

-- The dict `_ttl_fallback`, in insertion order.
abbrev pub Fallback : Type 0
Fallback = List (Key × Info)

abbrev pub insert : Key → Info → Fallback → Fallback
insert k i [] = (k, i) ∷ []
insert k i ((j, old) ∷ f) =
    let rest = insert k i f in if same_key k j then (k, i) ∷ f else (j, old) ∷ rest

-- `pop(key, None)`
abbrev pub remove : Key → Fallback → Fallback
remove k [] = []
remove k ((j, i) ∷ f) = let rest = remove k f in if same_key k j then f else (j, i) ∷ rest

abbrev pub lookup : Key → Fallback → Option Info
lookup k [] = none
lookup k ((j, i) ∷ f) = if same_key k j then some i else lookup k f

-- A `setex` that was sent: its key, its expiry in seconds, its value.
pub record Write : Type 0 where
  pub key : Key
  pub expiry : ℕ
  pub value : Info

unfoldable pub assigned : ℕ → ℕ → Zone → ℕ → ℕ → Info
unfolding ttl_of
assigned shelf_id order_id zone kitchen_id now = record {
  shelf_id = shelf_id;
  order_id = order_id;
  zone = zone;
  kitchen_id = kitchen_id;
  ttl_seconds = ttl_of zone;
  assigned_at = now;
  expires_at = now + ttl_of zone * second;
  warning_50_sent = false;
  warning_75_sent = false;
  warning_90_sent = false;
}

-- `assign_shelf_ttl`: the fallback first, then the write, whose failure changes nothing.
unfoldable pub assign_shelf_ttl : Fallback → ℕ → ℕ → Zone → ℕ → ℕ → ℕ → Fallback × Info × Write
unfolding assigned
assign_shelf_ttl f shelf_id order_id zone kitchen_id tenant_id now =
    let i = assigned shelf_id order_id zone kitchen_id now in
    let k : Key = record { tenant = tenant_id; shelf = shelf_id } in
    (insert k i f, i, record { key = k; expiry = i.ttl_seconds + 60; value = i })

-- The percentage of the TTL used is at least `p`.
abbrev pub has_used : ℕ → Info → ℕ → Bool
has_used p i now = leb (100 * i.assigned_at + p * (i.ttl_seconds * second)) (100 * now)

pub data Level : Type 0 where
  ok info warning critical : Level

-- `_get_warning_level`; a TTL of 0 counts as used in full.
unfoldable pub warning_level : Info → ℕ → Level
warning_level i now =
    if i.ttl_seconds == 0 || has_used 90 i now
    then critical
    else if has_used 75 i now
    then warning
    else if has_used 50 i now
    then info
    else ok

pub record ShelfStatus : Type 0 where
  pub entry : Info
  pub ttl_remaining : ℕ
  pub is_expired : Bool
  pub level : Level

-- What Redis answers to a `get`.
pub data GetReply : Type 0 where
  redis_error missing : GetReply
  found : Info → GetReply

-- A RedisError that is raised again, or the value of the method.
pub data Answer (A : Type 0) : Type 0 where
  raises : Answer A
  gives : A → Answer A

-- `max(0, ttl - elapsed)`, in microseconds.
abbrev pub remaining : Info → ℕ → ℕ
remaining i now = i.ttl_seconds * second + i.assigned_at - now

unfoldable pub status : Info → ℕ → ShelfStatus
unfolding warning_level
status i now = record {
  entry = i;
  ttl_remaining = remaining i now / second;
  is_expired = remaining i now == 0;
  level = warning_level i now;
}

unfoldable pub check_shelf_status : GetReply → ℕ → Answer (Option ShelfStatus)
check_shelf_status redis_error now = raises
check_shelf_status missing now = gives none
check_shelf_status (found i) now = gives (some (status i now))

-- The loop of `get_expired_shelves` over the entries that the scan finds.
unfoldable pub expired_of : ℕ → ℕ → List Info → List Info
expired_of kitchen_id now [] = []
expired_of kitchen_id now (i ∷ is) =
    let rest = expired_of kitchen_id now is in
    if i.kitchen_id == kitchen_id && remaining i now == 0 then i ∷ rest else rest

unfoldable pub extended : Info → ℕ → Info
extended i additional_seconds =
    let ttl = i.ttl_seconds + additional_seconds in
    record i {
      ttl_seconds = ttl;
      expires_at = i.assigned_at + ttl * second;
      warning_50_sent = false;
      warning_75_sent = false;
      warning_90_sent = false;
    }

-- `extend_ttl`, with whether its write succeeds; the write is there if it was sent.
unfoldable pub extend_ttl : Key → GetReply → Bool → ℕ → Answer Bool × Option Write
unfolding extended
extend_ttl k redis_error writes additional_seconds = (raises, none)
extend_ttl k missing writes additional_seconds = (gives false, none)
extend_ttl k (found i) writes additional_seconds =
    let j = extended i additional_seconds in
    (
      if writes then gives true else raises,
      some (record { key = k; expiry = j.ttl_seconds + 60; value = j }),
    )

-- An entry that `check_fallback_expired` returns.
pub record Expired : Type 0 where
  pub entry : Info
  pub expired_at : ℕ
  pub elapsed_seconds : ℕ

abbrev pub matches : Option ℕ → ℕ → Bool
matches none n = true
matches (some m) n = m == n

-- The tests of the loop: the filters by kitchen and tenant, and the expiry.
abbrev pub is_due : Option ℕ → Option ℕ → ℕ → Key × Info → Bool
is_due kitchen tenant now (k, i) =
    matches kitchen i.kitchen_id
    && matches tenant k.tenant
    && (ltb 0 i.ttl_seconds && leb (i.assigned_at + i.ttl_seconds * second) now)

abbrev pub expire : ℕ → Info → Expired
expire now i = record {
  entry = i;
  expired_at = now;
  elapsed_seconds = (now - i.assigned_at) / second;
}

-- `check_fallback_expired`: what is left of the fallback, and the expired entries.
unfoldable pub check_fallback_expired : Option ℕ → Option ℕ → ℕ → Fallback → Fallback × List Expired
check_fallback_expired kitchen tenant now [] = ([], [])
check_fallback_expired kitchen tenant now (e ∷ f) =
    let rest = check_fallback_expired kitchen tenant now f in
    if is_due kitchen tenant now e then (rest.0, expire now e.1 ∷ rest.1) else (e ∷ rest.0, rest.1)

unfoldable pub cleanup_fallback : ℕ → ℕ → Fallback → Fallback
cleanup_fallback shelf_id tenant_id f = remove (record { tenant = tenant_id; shelf = shelf_id }) f
