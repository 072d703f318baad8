-- ===== src/Shelf.antt =====
-- services/shelf-service: how long an order may stay on a shelf. `Ttl` has the engine that keeps the
-- times, `Worker` the background scan that warns, the other children the theorems.
pub mod Ttl
pub mod Worker
pub mod Keys
pub mod Fallback
pub mod Status
pub mod Notices
mod Examples
