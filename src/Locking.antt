-- ===== src/Locking.antt =====
-- shared/optimistic_locking.py: updates that a version number guards. `Update` has the two functions
-- over the database they are given, `Clients` interleaved clients of one row, the others the theorems.
pub mod Update
pub mod Clients
pub mod Loop
mod Examples
