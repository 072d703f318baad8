-- ===== src/Breaker/Run.antt =====
-- Sequences of the operations of a circuit breaker (shared/circuit_breaker.py). The lock makes each
-- operation one step, so every interleaving of concurrent calls is such a sequence.
use hot_sot.Base.{ℕ, Bool, false, List, [], ◌∷◌, if◌then◌else◌, suc}
use hot_sot.Breaker.Core.{
  CircuitBreaker, Readings, allow_request, record_success, record_failure, reset, force_open,
}

pub data Event : Type 0 where
  allow : Readings → Event
  success : ℕ → Event
  failure : ℕ → ℕ → Event
  resets : ℕ → Event
  forces : ℕ → ℕ → Event

unfoldable pub step : CircuitBreaker → Event → CircuitBreaker
step b (allow r) = (allow_request b r).0
step b (success now) = record_success b now
step b (failure now at_change) = record_failure b now at_change
step b (resets now) = reset b now
step b (forces at_change now) = force_open b at_change now

unfoldable pub run : CircuitBreaker → List Event → CircuitBreaker
run b [] = b
run b (e ∷ es) = run (step b e) es

-- Whether an event is a request that the breaker lets through.
unfoldable pub admits : CircuitBreaker → Event → Bool
admits b (allow r) = (allow_request b r).1
admits b e = false

-- How many requests of a sequence the breaker lets through.
unfoldable pub admitted : CircuitBreaker → List Event → ℕ
admitted b [] = 0
admitted b (e ∷ es) = let rest = admitted (step b e) es in if admits b e then suc rest else rest
