-- ===== src/Kafka.antt =====
-- shared/utils/kafka_client.py: `Producer` has the producer with its fallback log and the recovery service,
-- `Consumer` the consume loop with the deduplication store, the other children the theorems.
pub mod Producer
pub mod Consumer
pub mod Fallback
mod Examples
