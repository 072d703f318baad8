-- ===== src/Arrival.antt =====
-- services/arrival-service/app/core/dedup.py: signals of arrival that come twice. `Dedup` has the class,
-- `Window` its theorem.
pub mod Dedup
pub mod Window
mod Examples
