-- ===== src/Shelf/Status.antt =====
-- The status of a shelf and the extension of its TTL
-- (services/shelf-service/app/core/ttl_engine.py).
use hot_sot.Base.{ℕ, ◌+◌, ◌*◌, ◌≤◌, ◌<◌, ◌≡◌, refl, true, some, List, [], ◌∷◌, arith, leb}
use hot_sot.Shelf.Ttl.{
  second, Zone, ttl_of, Info, Key, assigned, Level, ok, info, warning, critical, warning_level,
  status, extended, extend_ttl, Write, found, gives, check_shelf_status,
}

pub rank : Level → ℕ
rank ok = 0
rank info = 1
rank warning = 2
rank critical = 3

-- The entry after a sequence of extensions, by `extend_ttl` on what Redis holds.
unfoldable pub extend_all : Info → List ℕ → Info
extend_all i [] = i
extend_all i (a ∷ more) = extend_all (extended i a) more

abbrev pub sum : List ℕ → ℕ
sum [] = 0
sum (n ∷ ns) = n + sum ns

-- An extension of a TTL above 0 that Redis takes is read back with no less time than before and at
-- most the extension more, and never at a higher level.
pub extend_ttl-status :
    (k : Key) (i : Info) (more now : ℕ)
    → 0 < i.ttl_seconds
    → (w : Write) × (extend_ttl k (found i) true more ≡ (gives true, some w))
      × (check_shelf_status (found w.value) now ≡ gives (some (status w.value now)))
      × ((status i now).ttl_remaining ≤ (status w.value now).ttl_remaining)
      × ((status w.value now).ttl_remaining ≤ (status i now).ttl_remaining + more)
      × (rank (status w.value now).level ≤ rank (status i now).level)
unfolding extend_ttl status rank warning_level check_shelf_status
extend_ttl-status k i more now h = (_, refl, refl, omega arith, omega arith, ground arith)

extend_from :
    (i : Info) (more : List ℕ) (now ttl later : ℕ)
    → i.assigned_at ≡ now
    → i.ttl_seconds ≡ ttl
    → i.expires_at ≡ now + ttl * second
    → let j = extend_all i more in
      (j.expires_at ≡ now + (ttl + sum more) * second)
      × ((status j later).is_expired ≡ leb j.expires_at later)
unfolding extend_all extended status
extend_from i [] now ttl later a b c = (omega (arith, c), ground (arith, a, b, c))
extend_from i (m ∷ ms) now ttl later a b c =
    let (x, y) =
      extend_from (extended i m) ms now (ttl + m) later a (omega (arith, b))
        (omega (arith, a, b)) in
    (omega (arith, x), y)

-- An entry that was assigned and then extended any number of times is expired from exactly its
-- recorded `expires_at`, which is its assignment plus the TTL of its zone plus all the extensions.
pub extend_all-expires :
    (shelf order : ℕ) (zone : Zone) (kitchen now : ℕ) (more : List ℕ) (later : ℕ)
    → let i = extend_all (assigned shelf order zone kitchen now) more in
      (i.expires_at ≡ now + (ttl_of zone + sum more) * second)
      × ((status i later).is_expired ≡ leb i.expires_at later)
unfolding assigned
extend_all-expires shelf order zone kitchen now more later =
    extend_from (assigned shelf order zone kitchen now) more now (ttl_of zone) later refl refl refl
