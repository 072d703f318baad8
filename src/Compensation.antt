-- ===== src/Compensation.antt =====
-- services/compensation-service: the compensation engine and the route that triggers it.
pub mod Engine
pub mod Trigger
pub mod Bounds
pub mod Total
mod Examples
