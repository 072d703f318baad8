-- ===== src/Kafka/Producer.antt =====
-- The classes KafkaProducer and KafkaRecoveryService of shared/utils/kafka_client.py over the lines of the
-- fallback log. An event is a number, which stands for its envelope, topic and key.
use hot_sot.Base.{ℕ, suc, Bool, true, false, List, [], ◌∷◌, ◌++◌, leb, if◌then◌else◌}

-- A line of the fallback log: an entry with its event and its replay count, a blank, or no JSON.
pub data Line : Type 0 where
  entry : ℕ → ℕ → Line
  blank malformed : Line

-- What a send meets: no started producer, a success, or an error.
pub data Send : Type 0 where
  absent succeeds errs : Send

-- The file and the events that Kafka got.
pub record Pipe : Type 0 where
  pub log : List Line
  pub sent : List ℕ

-- `_log_to_fallback`, where the file takes the line.
abbrev log_to_fallback : ℕ → Pipe → Pipe
log_to_fallback event p = record p { log = p.log ++ entry event 0 ∷ [] }

unfoldable pub publish_event : ℕ → Send → Pipe → Pipe × Bool
publish_event event absent p = (p, true)
publish_event event succeeds p = (record p { sent = p.sent ++ event ∷ [] }, true)
publish_event event errs p = (log_to_fallback event p, false)

abbrev max_replay_attempts : ℕ
max_replay_attempts = 3

pub data Publish : Type 0 where
  published refused raised : Publish

-- What a replay has done so far: the events sent, the lines to keep, and its counters.
pub record Replay : Type 0 where
  pub events : List ℕ
  pub remaining_entries : List Line
  pub replayed : ℕ
  pub failed : ℕ

-- An entry below the limit: the count in the parsed entry is raised, and the old line is kept.
abbrev replay_entry : Publish → ℕ → Line → Replay → Replay
replay_entry published event line r = record r {
  events = event ∷ r.events;
  replayed = suc r.replayed;
}
replay_entry refused event line r = record r {
  remaining_entries = line ∷ r.remaining_entries;
  failed = suc r.failed;
}
replay_entry raised event line r = record r {
  remaining_entries = line ∷ r.remaining_entries;
  failed = suc r.failed;
}

abbrev replay_line : (ℕ → Publish) → Line → Replay → Replay
replay_line publish blank r = r
replay_line publish malformed r = record r { failed = suc r.failed }
replay_line publish (entry event count) r =
    if leb max_replay_attempts count
    then record r { failed = suc r.failed }
    else replay_entry (publish event) event (entry event count) r

-- The loop over the lines, with what `publish_raw` does with each event.
unfoldable pub replay_lines : (ℕ → Publish) → List Line → Replay
replay_lines publish [] = record { events = []; remaining_entries = []; replayed = 0; failed = 0 }
replay_lines publish (line ∷ lines) = replay_line publish line (replay_lines publish lines)

-- `replay_fallback_log`, by whether a producer is there; the remaining lines are written back.
unfoldable pub replay_fallback_log : Bool → (ℕ → Publish) → Pipe → Pipe
replay_fallback_log false publish p = p
replay_fallback_log true publish p =
    let r = replay_lines publish p.log in
    record { log = r.remaining_entries; sent = p.sent ++ r.events }
