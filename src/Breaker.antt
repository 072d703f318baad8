-- ===== src/Breaker.antt =====
-- shared/circuit_breaker.py: the circuit breaker with four states. `Core` holds the methods of
-- `CircuitBreaker`, `Run` the sequences of its operations, the other children the theorems.
pub mod Core
pub mod Run
pub mod Invariant
pub mod Trip
pub mod Recovery
pub mod Registry
mod Examples
