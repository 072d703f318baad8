-- ===== src/Breaker/Examples.antt =====
-- Lives of a circuit breaker, and its theorems at concrete inputs.
use hot_sot.Base.{none, some, ◌≡◌, refl, some, List, [], ◌∷◌, map}
use hot_sot.Breaker.Core.{
  CircuitBreaker, closed, opened, half_open, stressed, new, allow_request, record_success,
  record_failure, reset, transition_to, state_at, recent,
}
use hot_sot.Breaker.Run.{run, step, admits, admitted}
use hot_sot.Breaker.Registry.{
  Key, redis, payment_gateway, Op, get, act, reset_service, AllValid, perform_all,
  perform_all-AllValid,
}
use hot_sot.Breaker.Run.{failure}
use hot_sot.Breaker.Trip.{IsTripped, failures, run-failures}
use hot_sot.Breaker.Recovery.{Steady, request, returned, event, probe_fails}

-- Two failures open it, it waits 30 ticks, two successes close it, one probe at a time.
abbrev fresh : CircuitBreaker
fresh = new 2 30 2 1 100

-- Opened at time 102.
abbrev tripped : CircuitBreaker
tripped = record fresh {
  state = opened;
  failure_count = 2;
  last_failure_time = some 102;
  last_state_change_time = 102;
  transition_count = 1;
  transition_times = 102 ∷ [];
  total_requests = 2;
  total_failures = 2;
}

two_failures_open : run fresh (failures ((101, 101) ∷ (102, 102) ∷ [])) ≡ tripped
unfolding run step record_failure transition_to recent
two_failures_open = refl

-- After the timeout the breaker shows HALF_OPEN and lets one request through; it stays OPEN, and the
-- success of that request does not free its place.
abbrev probing : List Steady
probing = request 140 ∷ returned 141 ∷ request 142 ∷ request 500 ∷ []

shows_half_open : state_at tripped 140 ≡ half_open
unfolding state_at
shows_half_open = refl

one_probe_ever : admitted tripped (map event probing) ≡ 1
unfolding admitted admits step allow_request record_success
one_probe_ever = refl

run-failures_example :
    ((run fresh (failures ((101, 101) ∷ []))).state ≡ closed)
    × IsTripped (record_failure (run fresh (failures ((101, 101) ∷ []))) 102 102)
run-failures_example = run-failures fresh ((101, 101) ∷ []) 102 102 refl refl

abbrev testing : CircuitBreaker
testing = record tripped { state = half_open; half_open_request_count = 1 }

probe_fails_example :
    IsTripped (record_failure testing 143 143)
    × ((record_failure testing 143 143).half_open_request_count ≡ 0)
probe_fails_example = probe_fails testing 143 143 refl

-- Five changes of state in the window, then a reset: the breaker is STRESSED.
abbrev oscillating : CircuitBreaker
oscillating = record tripped { transition_times = 102 ∷ 103 ∷ 104 ∷ 105 ∷ 106 ∷ [] }

reset_stresses : (reset oscillating 107).state ≡ stressed
unfolding reset transition_to recent
reset_stresses = refl

abbrev order_redis : Key
order_redis = record { service = 1; dependency = redis }

abbrev order_payments : Key
order_payments = record { service = 1; dependency = payment_gateway }

abbrev day : List Op
day =
    get order_redis none 100
    ∷ get order_payments
        (some (record {
          failure_threshold = 2;
          recovery_timeout = 60;
          success_threshold = 1;
          half_open_max_requests = 1;
        }))
        101
    ∷ act order_payments (failure 102 102)
    ∷ act order_payments (failure 103 103)
    ∷ reset_service 1 200
    ∷ []

perform_all-AllValid_example : AllValid (perform_all day [])
perform_all-AllValid_example = perform_all-AllValid day [] refl tt
