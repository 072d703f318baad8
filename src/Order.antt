-- ===== src/Order.antt =====
-- The order lifecycle: services/order-service/app/core/state_machine.py and the tables that it
-- takes from shared/types/schemas.py. `Status` and `Machine` hold the definitions, the other
-- children the theorems.
pub mod Status
pub mod Machine
pub mod Tables
pub mod Lifecycle
pub mod Milestones
pub mod Sequence
mod Examples
