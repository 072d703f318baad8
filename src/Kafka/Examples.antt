-- ===== src/Kafka/Examples.antt =====
-- Events and messages, and the theorems on them at concrete inputs (shared/utils/kafka_client.py).
use hot_sot.Base.{ℕ, ◌+◌, ◌≡◌, refl, true, ◌==◌, some, List, [], ◌∷◌, if◌then◌else◌, length}
use hot_sot.Kafka.Producer.{
  entry, succeeds, errs, Pipe, publish_event, published, refused, replay_lines, replay_fallback_log,
}
use hot_sot.Kafka.Fallback.{Op, publish, replay, step, steps}
use hot_sot.Kafka.Consumer.{
  Consumer, Pass, consume_loop, consume, extract_event_id, is_duplicate, mark_processed,
  handle_failure,
}

-- Two events fail, four replays of the second fail, and the first is sent by the last replay.
abbrev outage : List Op
outage =
    publish 5 errs
    ∷ publish 6 errs
    ∷ replay true (λ e. refused)
    ∷ replay true (λ e. refused)
    ∷ replay true (λ e. refused)
    ∷ replay true (λ e. if e == 5 then published else refused)
    ∷ publish 7 succeeds
    ∷ []

abbrev empty : Pipe
empty = record { log = []; sent = [] }

-- After four failed replays the entry of the second event still counts none.
still_new : steps outage empty ≡ record { log = entry 6 0 ∷ []; sent = 5 ∷ 7 ∷ [] }
unfolding steps step publish_event replay_fallback_log replay_lines
still_new = refl

abbrev message : ℕ → Pass
message offset = record {
  message = record {
    place = record { topic = 1; partition = 0; offset = offset };
    key = 4;
    event_id = some (offset + 100);
  };
  returns = offset == 2;
  commits = true;
  commits_again = true;
  at_test = offset;
  at_mark = offset;
}

abbrev consumer : Consumer
consumer = record {
  max_retries = 3;
  ttl_seconds = 3600;
  seen = [];
  retry_counts = [];
  handled = [];
  dlq = [];
  committed = 0;
  running = true;
}

abbrev messages : List Pass
messages = message 1 ∷ message 2 ∷ message 3 ∷ []

-- Two messages whose handler fails are committed after one try, and the third is handled: none is given again, none is
-- in the failure log.
dropped :
    let c = consume_loop messages consumer in
    (c.dlq ≡ []) × (c.committed ≡ 3) × (length c.handled ≡ 1)
unfolding consume_loop consume extract_event_id is_duplicate mark_processed handle_failure
dropped = (refl, refl, refl)
