-- ===== src/Shelf/Examples.antt =====
-- Shelves, and the theorems on them at concrete inputs.
use hot_sot.Base.{ℕ, ◌+◌, ◌*◌, ◌≡◌, refl, true, false, none, some, List, [], ◌∷◌, length}
use hot_sot.Shelf.Ttl.{
  second, hot, cold, Info, Key, critical, warning, info, check_fallback_expired, lookup,
}
use hot_sot.Shelf.Worker.{
  expiry_warning, expired, scans, process_key, threshold, mark, Turn, scan, extend,
}
use hot_sot.Shelf.Fallback.{Call, assign, calls, kept, check_lem}

abbrev noon : ℕ
noon = 43_200 * second

-- Seconds after noon.
abbrev after : ℕ → ℕ
after s = noon + s * second

-- Shelf 7 with order 3 in the hot zone of kitchen 1, from noon on.
abbrev entry : Info
entry = record {
  shelf_id = 7;
  order_id = 3;
  zone = hot;
  kitchen_id = 1;
  ttl_seconds = 600;
  assigned_at = noon;
  expires_at = after 600;
  warning_50_sent = false;
  warning_75_sent = false;
  warning_90_sent = false;
}

abbrev key : Key
key = record { tenant = 2; shelf = 7 }

-- A scan every 150 seconds gives the warnings in rising severity.
regular_scans :
    scans (some entry) (
      scan (after 300) true
      ∷ scan (after 450) true
      ∷ scan (after 550) true
      ∷ scan (after 600) true
      ∷ [])
    ≡ expiry_warning info ∷ expiry_warning warning ∷ expiry_warning critical ∷ expired ∷ []
unfolding scans process_key threshold mark
regular_scans = refl

-- A write that fails brings the warning again.
repeated_warning :
    scans (some entry) (scan (after 300) false ∷ scan (after 330) true ∷ [])
    ≡ expiry_warning info ∷ expiry_warning info ∷ []
unfolding scans process_key threshold mark
repeated_warning = refl

abbrev turns : List Turn
turns = scan (after 301) true ∷ extend 20 ∷ scan (after 320) true ∷ scan (after 900) true ∷ []

abbrev two_calls : List Call
two_calls = assign 7 3 hot 1 2 noon ∷ assign 8 4 cold 1 2 noon ∷ []

check_lem_example :
    let f = calls two_calls [] in
    let (left, reported) = check_fallback_expired none (some 2) (after 700) f in
    (lookup key left ≡ kept none (some 2) (after 700) key (lookup key f))
    × (length left + length reported ≡ length f)
    × ((check_fallback_expired none (some 2) (after 700) left).1 ≡ [])
check_lem_example = check_lem two_calls none (some 2) (after 700) key
