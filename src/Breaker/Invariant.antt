-- ===== src/Breaker/Invariant.antt =====
-- What holds of a circuit breaker between two operations (shared/circuit_breaker.py).
use hot_sot.Base.{ℕ, suc, ◌+◌, ◌*◌, ◌≤◌, ◌<◌, ◌≡◌, ◌≢◌, ◌⊎◌, none, some, List, [], ◌∷◌, arith}
use hot_sot.Breaker.Core.{
  CircuitState, closed, opened, half_open, stressed, CircuitBreaker, Readings, new, transition_to,
  allow_request, record_success, record_failure, reset, force_open,
}
use hot_sot.Breaker.Run.{Event, allow, success, failure, resets, forces, step, run}

pub record IsValid (b : CircuitBreaker) : Type 0 where
  pub threshold_pos : 0 < b.failure_threshold
  pub probes_pos : 0 < b.half_open_max_requests
  pub probes_capped : b.half_open_request_count ≤ b.half_open_max_requests
  pub closed_below : b.state ≡ closed → b.failure_count < b.failure_threshold
  pub failed_before : b.state ≢ closed → b.last_failure_time ≢ none
  pub requests_counted : b.total_requests ≡ b.total_successes + b.total_failures
  pub timeout_kept :
      (b.effective_recovery_timeout ≡ b.recovery_timeout)
      ⊎ (b.effective_recovery_timeout ≡ b.recovery_timeout * 2)

pub new-IsValid : (ft rt st hm now : ℕ) → 0 < ft → 0 < hm → IsValid (new ft rt st hm now)
new-IsValid ft rt st hm now h k = ground arith

-- What `_transition_to` changes and keeps, with its state left open.
record Moved (b : CircuitBreaker) (s : CircuitState) (c : CircuitBreaker) : Type 0 where
  failure_threshold_kept : c.failure_threshold ≡ b.failure_threshold
  max_kept : c.half_open_max_requests ≡ b.half_open_max_requests
  recovery_kept : c.recovery_timeout ≡ b.recovery_timeout
  failure_count_kept : c.failure_count ≡ b.failure_count
  last_kept : c.last_failure_time ≡ b.last_failure_time
  probes_kept : c.half_open_request_count ≡ b.half_open_request_count
  requests_kept : c.total_requests ≡ b.total_requests
  successes_kept : c.total_successes ≡ b.total_successes
  failures_kept : c.total_failures ≡ b.total_failures
  where_to : (c.state ≡ s) ⊎ (c.state ≡ stressed)
  only_there : b.state ≡ s → c.state ≡ s
  timeout :
      (c.effective_recovery_timeout ≡ b.effective_recovery_timeout)
      ⊎ (c.effective_recovery_timeout ≡ b.recovery_timeout * 2)

transition_to-Moved :
    (b : CircuitBreaker) (s : CircuitState) (now : ℕ) → Moved b s (transition_to b s now)
unfolding transition_to
transition_to-Moved b s now = ground arith

allow-IsValid : {b : CircuitBreaker} (r : Readings) → IsValid b → IsValid (allow_request b r).0
unfolding allow_request
allow-IsValid {b} r h = ground (arith, transition_to-Moved b half_open r.at_change)

success-IsValid : {b : CircuitBreaker} (now : ℕ) → IsValid b → IsValid (record_success b now)
unfolding record_success
success-IsValid {b} now h =
    let probe : CircuitBreaker = record b {
      total_requests = suc b.total_requests;
      total_successes = suc b.total_successes;
      success_count = suc b.success_count;
    } in
    ground (arith, transition_to-Moved probe closed now)

failure-IsValid :
    {b : CircuitBreaker} (now at_change : ℕ) → IsValid b → IsValid (record_failure b now at_change)
unfolding record_failure
failure-IsValid {b} now at_change h =
    let failed : CircuitBreaker = record b {
      total_requests = suc b.total_requests;
      total_failures = suc b.total_failures;
      failure_count = suc b.failure_count;
      last_failure_time = some now;
    } in
    ground (arith, transition_to-Moved failed opened at_change)

reset-IsValid : {b : CircuitBreaker} (now : ℕ) → IsValid b → IsValid (reset b now)
unfolding reset
reset-IsValid {b} now h = ground (arith, transition_to-Moved b closed now)

force_open-IsValid :
    {b : CircuitBreaker} (at_change now : ℕ) → IsValid b → IsValid (force_open b at_change now)
unfolding force_open
force_open-IsValid {b} at_change now h = ground (arith, transition_to-Moved b opened at_change)

step-IsValid : {b : CircuitBreaker} (e : Event) → IsValid b → IsValid (step b e)
unfolding step
step-IsValid (allow r) h = allow-IsValid r h
step-IsValid (success now) h = success-IsValid now h
step-IsValid (failure now at_change) h = failure-IsValid now at_change h
step-IsValid (resets now) h = reset-IsValid now h
step-IsValid (forces at_change now) h = force_open-IsValid at_change now h

-- Every sequence of operations on a breaker keeps its invariant, whatever the clock shows: no more
-- probes than allowed, fewer failures than the threshold while CLOSED, a time of failure in every
-- other state, a timeout of once or twice the configured one, and counters that add up.
pub run-IsValid : (b : CircuitBreaker) (es : List Event) → IsValid b → IsValid (run b es)
unfolding run
run-IsValid b [] h = h
run-IsValid b (e ∷ es) h = run-IsValid (step b e) es (step-IsValid e h)
