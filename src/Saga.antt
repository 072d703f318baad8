-- ===== src/Saga.antt =====
-- services/order-service/app/core/saga.py: the sagas of an order. `Definition` has their steps, `Engine`
-- the orchestrator, `Progress` and `Safety` the theorems.
pub mod Definition
pub mod Engine
pub mod Progress
pub mod Safety
mod Examples
