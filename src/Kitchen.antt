-- ===== src/Kitchen.antt =====
-- services/kitchen-service/app/core/engine.py. `Staff` has the staff assignment, `Conserved` its theorem.
pub mod Staff
pub mod Conserved
mod Examples
