-- ===== src/Breaker/Trip.antt =====
-- When a circuit breaker opens, and that an open one fails fast (shared/circuit_breaker.py).
use hot_sot.Base.{ℕ, suc, ◌+◌, ◌≤◌, ◌<◌, ◌≡◌, ◌⊎◌, false, some, List, [], ◌∷◌, arith, length}
use hot_sot.Breaker.Core.{
  closed, opened, stressed, CircuitBreaker, Readings, transition_to, allow_request, has_elapsed,
  record_success, record_failure, call, Outcome, circuit_open,
}
use hot_sot.Breaker.Run.{Event, failure, step, run}

-- OPEN or STRESSED: the states in which requests are refused.
abbrev pub IsTripped : CircuitBreaker → Type 0
IsTripped b = (b.state ≡ opened) ⊎ (b.state ≡ stressed)

transition_to-opened : (b : CircuitBreaker) (now : ℕ) → IsTripped (transition_to b opened now)
unfolding transition_to
transition_to-opened b now = ground arith

failure_closed :
    (b : CircuitBreaker) (now at_change : ℕ)
    → b.state ≡ closed
    → suc b.failure_count < b.failure_threshold
    → ((record_failure b now at_change).state ≡ closed)
      × ((record_failure b now at_change).failure_count ≡ suc b.failure_count)
      × ((record_failure b now at_change).failure_threshold ≡ b.failure_threshold)
unfolding record_failure
failure_closed b now at_change c h = ground arith

failure_trips :
    (b : CircuitBreaker) (now at_change : ℕ)
    → b.state ≡ closed
    → b.failure_threshold ≤ suc b.failure_count
    → IsTripped (record_failure b now at_change)
unfolding record_failure
failure_trips b now at_change c h =
    let failed : CircuitBreaker = record b {
      total_requests = suc b.total_requests;
      total_failures = suc b.total_failures;
      failure_count = suc b.failure_count;
      last_failure_time = some now;
    } in
    ground (arith, transition_to-opened failed at_change)

abbrev pub failures : List (ℕ × ℕ) → List Event
failures [] = []
failures ((now, at_change) ∷ ts) = failure now at_change ∷ failures ts

-- A CLOSED breaker stays CLOSED under consecutive failures below the threshold, and with the one that
-- reaches the threshold it is OPEN or STRESSED.
pub run-failures :
    (b : CircuitBreaker) (ts : List (ℕ × ℕ)) (now at_change : ℕ)
    → b.state ≡ closed
    → b.failure_count + length ts + 1 ≡ b.failure_threshold
    → ((run b (failures ts)).state ≡ closed)
      × IsTripped (record_failure (run b (failures ts)) now at_change)
unfolding run step
run-failures b [] now at_change c h = (c, failure_trips b now at_change c (omega arith))
run-failures b ((t, u) ∷ ts) now at_change c h =
    let (still, count, limit) = failure_closed b t u c (omega arith) in
    run-failures (record_failure b t u) ts now at_change still (omega arith)

-- A success of a CLOSED breaker starts the count of failures again.
success_closed :
    (b : CircuitBreaker) (now : ℕ)
    → b.state ≡ closed
    → ((record_success b now).state ≡ closed) × ((record_success b now).failure_count ≡ 0)
unfolding record_success
success_closed b now c = ground arith

-- While its timeout has not elapsed at either reading of the clock, an OPEN or STRESSED breaker
-- refuses a call at once, whatever the function would do, and only counts the rejection.
pub call_fails_fast :
    (b : CircuitBreaker) (r : Readings) (outcome : Outcome) (now at_change : ℕ)
    → IsTripped b
    → has_elapsed b r.at_state b.last_failure_time ≡ false
    → has_elapsed b r.at_test b.last_failure_time ≡ false
    → call b r outcome now at_change
      ≡ (record b { total_rejected = suc b.total_rejected }, circuit_open)
unfolding call allow_request
call_fails_fast b r outcome now at_change trip h k = ground arith
