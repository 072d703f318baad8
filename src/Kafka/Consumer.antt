-- ===== src/Kafka/Consumer.antt =====
-- The classes EventDedupStore and KafkaConsumer of shared/utils/kafka_client.py. A message has its place, by
-- topic, partition and offset, and its identifier; what the handler does with it, and the clock, are
-- arguments.
use hot_sot.Base.{
  ℕ, suc, ◌+◌, Bool, true, false, ◌&&◌, Option, none, some, List, [], ◌∷◌, ltb, leb, ◌==◌,
  if◌then◌else◌,
}

pub record Place : Type 0 where
  pub topic : ℕ
  pub partition : ℕ
  pub offset : ℕ

abbrev same_place : Place → Place → Bool
same_place p q = p.topic == q.topic && p.partition == q.partition && p.offset == q.offset

-- `_extract_event_id`: the event_id of the value, or the key with the offset.
pub data EventId : Type 0 where
  event : ℕ → EventId
  composite : ℕ → ℕ → EventId

abbrev same_id : EventId → EventId → Bool
same_id (event a) (event b) = a == b
same_id (composite k o) (composite j q) = k == j && o == q
same_id _ _ = false

pub record Message : Type 0 where
  pub place : Place
  pub key : ℕ
  pub event_id : Option ℕ

abbrev id_of : Option ℕ → Message → EventId
id_of (some e) m = event e
id_of none m = composite m.key m.place.offset

unfoldable pub extract_event_id : Message → EventId
extract_event_id m = id_of m.event_id m

-- The dict of EventDedupStore, the last entry of an identifier first.
abbrev pub Seen : Type 0
Seen = List (EventId × ℕ)

abbrev get : EventId → Seen → Option ℕ
get e [] = none
get e ((d, expiry) ∷ s) = if same_id d e then some expiry else get e s

abbrev remove : EventId → Seen → Seen
remove e [] = []
remove e ((d, expiry) ∷ s) =
    let rest = remove e s in if same_id d e then rest else (d, expiry) ∷ rest

abbrev tested : EventId → ℕ → Seen → Option ℕ → Seen × Bool
tested e now s none = (s, false)
tested e now s (some expiry) = if ltb expiry now then (remove e s, false) else (s, true)

unfoldable pub is_duplicate : EventId → ℕ → Seen → Seen × Bool
is_duplicate e now s = tested e now s (get e s)

unfoldable pub mark_processed : EventId → ℕ → ℕ → Seen → Seen
mark_processed e ttl_seconds now s = (e, now + ttl_seconds) ∷ remove e s

unfoldable cleanup_expired : ℕ → Seen → Seen
cleanup_expired now [] = []
cleanup_expired now ((e, expiry) ∷ s) =
    let rest = cleanup_expired now s in if ltb expiry now then rest else (e, expiry) ∷ rest

-- A consumer with a deduplication store; `handled` are the messages whose handler returned, `dlq` those that
-- the failure log got, `committed` counts the commits, and
-- `running` is false once the loop has ended by a commit that raises.
pub record Consumer : Type 0 where
  pub max_retries : ℕ
  pub ttl_seconds : ℕ
  pub seen : Seen
  pub retry_counts : List (Place × ℕ)
  pub handled : List Message
  pub dlq : List Message
  pub committed : ℕ
  pub running : Bool

-- `_retry_counts.get(msg_key, 0)`
abbrev retries : Place → List (Place × ℕ) → ℕ
retries p [] = 0
retries p ((q, n) ∷ rest) = if same_place q p then n else retries p rest

abbrev pop : Place → List (Place × ℕ) → List (Place × ℕ)
pop p [] = []
pop p ((q, n) ∷ rest) = let rest' = pop p rest in if same_place q p then rest' else (q, n) ∷ rest'

-- `_handle_failure`, where the failure log takes the line.
unfoldable pub handle_failure : Message → Consumer → Consumer
handle_failure m c =
    let retry_count = suc (retries m.place c.retry_counts) in
    if leb c.max_retries retry_count
    then record c { dlq = m ∷ c.dlq; retry_counts = pop m.place c.retry_counts }
    else record c { retry_counts = (m.place, retry_count) ∷ c.retry_counts }

-- A commit outside the inner try: if it raises, the loop ends.
abbrev commit : Bool → Consumer → Consumer
commit true c = record c { committed = suc c.committed }
commit false c = record c { running = false }

-- One pass of the loop: the message, whether the handler returns, whether its commit and that after a failure
-- succeed, and the clock at the test and at the mark.
pub record Pass : Type 0 where
  pub message : Message
  pub returns : Bool
  pub commits : Bool
  pub commits_again : Bool
  pub at_test : ℕ
  pub at_mark : ℕ

-- After the handler has returned and the event is marked: a commit that raises is a failure of the message.
abbrev finished : Pass → Consumer → Consumer
finished p c =
    if p.commits
    then record c { committed = suc c.committed }
    else commit p.commits_again (handle_failure p.message c)

-- After the test for a duplicate.
abbrev handle : Pass → Consumer → Consumer
handle p c =
    if p.returns
    then finished p (record c {
      seen = mark_processed (extract_event_id p.message) c.ttl_seconds p.at_mark c.seen;
      handled = p.message ∷ c.handled;
    })
    else commit p.commits_again (handle_failure p.message c)

abbrev consumed : Pass → Consumer → Seen × Bool → Consumer
consumed p c (s, true) = commit p.commits (record c { seen = s })
consumed p c (s, false) = handle p (record c { seen = s })

unfoldable pub consume : Pass → Consumer → Consumer
unfolding is_duplicate mark_processed handle_failure
consume p c = consumed p c (is_duplicate (extract_event_id p.message) p.at_test c.seen)

unfoldable pub consume_loop : List Pass → Consumer → Consumer
consume_loop [] c = c
consume_loop (p ∷ ps) c = let rest = consume_loop ps (consume p c) in if c.running then rest else c
