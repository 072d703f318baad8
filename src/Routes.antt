-- ===== src/Routes.antt =====
-- services/order-service/app/routes/orders.py: the routes that move an order. `Store` has the order and
-- the effects of a request, `Payment`, `Preparation`, `Pickup` and `Closing` the handlers, `Service` all
-- routes over one order, the other children the theorems.
pub mod Store
pub mod Payment
pub mod Preparation
pub mod Pickup
pub mod Closing
pub mod Service
pub mod Induction
pub mod Audit
pub mod Replay
pub mod Log
pub mod HandedOver
pub mod Stuck
pub mod Sends
pub mod Effects
pub mod Idempotency
pub mod Locks
mod Examples
