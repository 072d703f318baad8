-- ===== src/Gateway.antt =====
-- shared/payment_gateway.py: the client of the payment provider. `Http` has the retries of a request,
-- `Api` the operations with their idempotency store, the other children the theorems.
pub mod Http
pub mod Api
pub mod Retry
pub mod Once
mod Examples
