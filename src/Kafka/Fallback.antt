-- ===== src/Kafka/Fallback.antt =====
-- No event is lost between Kafka and the fallback log (shared/utils/kafka_client.py).
use hot_sot.Base.{ℕ, ◌+◌, ◌≡◌, Bool, true, false, ◌&&◌, List, [], ◌∷◌, ◌==◌, if◌then◌else◌}
use hot_sot.Kafka.Producer.{
  Line, entry, blank, malformed, Send, absent, succeeds, errs, Pipe, publish_event, Publish,
  replay_fallback_log,
}

pub data Op : Type 0 where
  publish : ℕ → Send → Op
  replay : Bool → (ℕ → Publish) → Op

unfoldable pub step : Op → Pipe → Pipe
step (publish event send) p = (publish_event event send p).0
step (replay has_producer f) p = replay_fallback_log has_producer f p

unfoldable pub steps : List Op → Pipe → Pipe
steps [] p = p
steps (o ∷ os) p = steps os (step o p)

abbrev pub count : ℕ → List ℕ → ℕ
count e [] = 0
count e (x ∷ xs) = (if x == e then 1 else 0) + count e xs

-- How often an event stands in the log.
abbrev pub logged : ℕ → List Line → ℕ
logged e [] = 0
logged e (entry x n ∷ ls) = (if x == e then 1 else 0) + logged e ls
logged e (blank ∷ ls) = logged e ls
logged e (malformed ∷ ls) = logged e ls

-- How often an event was handed to a started producer.
abbrev pub handed : ℕ → List Op → ℕ
handed e [] = 0
handed e (publish x absent ∷ os) = handed e os
handed e (publish x succeeds ∷ os) = (if x == e then 1 else 0) + handed e os
handed e (publish x errs ∷ os) = (if x == e then 1 else 0) + handed e os
handed e (replay b f ∷ os) = handed e os

-- Whether every line is an entry that was never replayed, by its count.
abbrev pub all_new : List Line → Bool
all_new [] = true
all_new (entry x n ∷ ls) = n == 0 && all_new ls
all_new (blank ∷ ls) = false
all_new (malformed ∷ ls) = false

-- The log holds new entries only, and each event that was handed over is in it or was sent.
record Keeps (e n : ℕ) (p : Pipe) : Type 0 where
  new : all_new p.log ≡ true
  found : count e p.sent + logged e p.log ≡ n
