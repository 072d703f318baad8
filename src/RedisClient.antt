-- ===== src/RedisClient.antt =====
-- shared/utils/redis_client.py: the client of Redis. `Server` has the commands that it uses, `Client` the
-- class RedisClient with the global circuit breaker, the other children the theorems.
pub mod Server
pub mod Client
pub mod Run
pub mod Grant
pub mod Lock
pub mod Probes
pub mod Outage
pub mod Cached
pub mod Domain
pub mod Rate
mod Examples
