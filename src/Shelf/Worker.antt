-- ===== src/Shelf/Worker.antt =====
-- `TTLWorker` of services/shelf-service/app/core/ttl_worker.py: the processing of one key in a scan.
-- A publication that fails is only logged, so a notice stands for the attempt. `writes` says whether
-- Redis takes the write or the deletion; a failure is logged and leaves the key as it was.
use hot_sot.Base.{
  ℕ, ◌+◌, ◌-◌, ◌*◌, ◌/◌, max, Bool, true, not, ◌&&◌, Option, none, some, List, [], ◌∷◌, ◌++◌, ◌==◌,
  if◌then◌else◌,
}
use hot_sot.Shelf.Ttl.{extended, second, Info, has_used, Level, info, warning, critical}

-- The events published to Kafka.
pub data Notice : Type 0 where
  expiry_warning : Level → Notice
  expired : Notice

-- The expiry in seconds that `_update_key` writes with a changed entry.
unfoldable pub update_expiry : Info → ℕ → ℕ
update_expiry i now = max 1 ((i.ttl_seconds * second + 60 * second + i.assigned_at - now) / second)

-- The entry with the flag of a level set.
unfoldable pub mark : Level → Info → Info
mark critical i = record i { warning_90_sent = true }
mark warning i = record i { warning_75_sent = true }
mark info i = record i { warning_50_sent = true }
mark Level.ok i = i

abbrev warn : Level → Info → Bool → Option Info × Option Notice
warn l i writes = (some (if writes then mark l i else i), some (expiry_warning l))

-- The chain of threshold checks, for an entry whose TTL is not 0.
unfoldable pub threshold : Info → ℕ → Bool → Option Info × Option Notice
threshold i now writes =
    if has_used 100 i now
    then ((if writes then none else some i), some expired)
    else if has_used 90 i now && not i.warning_90_sent
    then warn critical i writes
    else if has_used 75 i now && not i.warning_75_sent
    then warn warning i writes
    else if has_used 50 i now && not i.warning_50_sent
    then warn info i writes
    else (some i, none)

-- `_process_key` on what the key holds: what it holds afterwards, and the event.
unfoldable pub process_key : Option Info → ℕ → Bool → Option Info × Option Notice
unfolding threshold
process_key none now writes = (none, none)
process_key (some i) now writes =
    if i.ttl_seconds == 0 then (some i, none) else threshold i now writes

abbrev pub listed : Option Notice → List Notice
listed none = []
listed (some n) = n ∷ []

-- What happens to a key: a scan at a time, with whether Redis takes its writes, or an `extend_ttl` by some seconds.
pub data Turn : Type 0 where
  scan : ℕ → Bool → Turn
  extend : ℕ → Turn

abbrev pub lengthened : ℕ → Option Info → Option Info
lengthened n none = none
lengthened n (some i) = some (extended i n)

-- The events about one key over a sequence of turns. Redis drops a key a minute after its TTL, which is left out here.
unfoldable pub scans : Option Info → List Turn → List Notice
scans stored [] = []
scans stored (scan now writes ∷ ts) =
    let (stored', notice) = process_key stored now writes in listed notice ++ scans stored' ts
scans stored (extend n ∷ ts) = scans (lengthened n stored) ts
