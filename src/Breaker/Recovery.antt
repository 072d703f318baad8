-- ===== src/Breaker/Recovery.antt =====
-- How a circuit breaker leaves HALF_OPEN, and that it does not leave OPEN
-- (shared/circuit_breaker.py).
use hot_sot.Base.{
  ℕ, suc, ◌+◌, ◌≤◌, ◌<◌, ◌≡◌, ◌↔◌, ◌⊎◌, Bool, true, false, List, [], ◌∷◌, arith, refl, length, map,
  ◌∙◌, ◌++◌,
}
use hot_sot.Breaker.Core.{
  closed, half_open, stressed, CircuitBreaker, transition_to, allow_request, record_success,
  record_failure, recent, reset,
}
use hot_sot.Breaker.Run.{Event, allow, failure, success, step, run, admits, admitted}
use hot_sot.Breaker.Trip.{IsTripped}

success_half_open :
    (b : CircuitBreaker) (now : ℕ)
    → b.state ≡ half_open
    → suc b.success_count < b.success_threshold
    → ((record_success b now).state ≡ half_open)
      × ((record_success b now).success_count ≡ suc b.success_count)
      × ((record_success b now).success_threshold ≡ b.success_threshold)
unfolding record_success
success_half_open b now c h = ground arith

-- One request after the other with one reading of the clock each, and their results.
pub data Steady : Type 0 where
  request returned : ℕ → Steady
  raised : ℕ → ℕ → Steady

abbrev pub event : Steady → Event
event (request now) = allow (record { at_state = now; at_test = now; at_change = now })
event (returned now) = success now
event (raised now at_change) = failure now at_change

step_tripped :
    (b : CircuitBreaker) (e : Steady)
    → IsTripped b
    → ((step b (event e)).state ≡ b.state)
      × ((step b (event e)).half_open_max_requests ≡ b.half_open_max_requests)
unfolding step allow_request record_success record_failure
step_tripped b (request now) t = ground arith
step_tripped b (returned now) t = ground arith
step_tripped b (raised now at_change) t = ground arith

abbrev admitted_by : Bool → ℕ
admitted_by true = 1
admitted_by false = 0

step_room :
    (b : CircuitBreaker) (e : Steady)
    → IsTripped b
    → b.half_open_request_count ≤ b.half_open_max_requests
    → ((step b (event e)).half_open_request_count
        ≡ b.half_open_request_count + admitted_by (admits b (event e)))
      × ((step b (event e)).half_open_request_count ≤ b.half_open_max_requests)
unfolding step allow_request record_success record_failure admits
step_room b (request now) t h = ground arith
step_room b (returned now) t h = ground arith
step_room b (raised now at_change) t h = ground arith

IsTripped-eq : (b c : CircuitBreaker) → c.state ≡ b.state → IsTripped b → IsTripped c
IsTripped-eq b c e t = ground arith

admitted-nil : (b : CircuitBreaker) → admitted b [] ≡ 0
unfolding admitted
admitted-nil b = refl

admitted-cons :
    (b : CircuitBreaker) (e : Event) (es : List Event)
    → admitted b (e ∷ es) ≡ admitted_by (admits b e) + admitted (step b e) es
unfolding admitted
admitted-cons b e es = ground arith

-- Once OPEN or STRESSED, a breaker stays so through every sequence of requests, returns and failures
-- in which each `allow_request` reads one time: it never probes its way back to CLOSED. All that it
-- lets through after its timeout is what `half_open_max_requests` leaves, and nothing after that.
pub run-IsTripped :
    (b : CircuitBreaker) (es : List Steady)
    → IsTripped b
    → b.half_open_request_count ≤ b.half_open_max_requests
    → ((run b (map event es)).state ≡ b.state)
      × (admitted b (map event es) + b.half_open_request_count ≤ b.half_open_max_requests)
unfolding run
run-IsTripped b [] t h = (refl, omega (arith, admitted-nil b))
run-IsTripped b (e ∷ es) t h =
    let (state, most) = step_tripped b e t in
    let (count, fits) = step_room b e t h in
    let rest =
      run-IsTripped (step b (event e)) es (IsTripped-eq b (step b (event e)) state t)
        (omega arith) in
    (rest.0 ∙ state, omega (arith, admitted-cons b (event e) (map event es)))

transition_to-closed :
    (b : CircuitBreaker) (now : ℕ)
    → let s = (transition_to b closed now).state in (s ≡ closed) ⊎ (s ≡ stressed)
unfolding transition_to
transition_to-closed b now = ground arith

abbrev pub successes : List ℕ → List Event
successes [] = []
successes (now ∷ ts) = success now ∷ successes ts

success_recovers :
    (b : CircuitBreaker) (now : ℕ)
    → b.state ≡ half_open
    → b.success_threshold ≤ suc b.success_count
    → let c = record_success b now in
      ((c.state ≡ closed) ⊎ (c.state ≡ stressed))
      × (c.failure_count ≡ 0)
      × (c.half_open_request_count ≡ 0)
      × (c.effective_recovery_timeout ≡ b.recovery_timeout)
unfolding record_success
success_recovers b now c h =
    let probe : CircuitBreaker = record b {
      total_requests = suc b.total_requests;
      total_successes = suc b.total_successes;
      success_count = suc b.success_count;
    } in
    ground (arith, transition_to-closed probe now)

-- A HALF_OPEN breaker stays so under successes below the threshold; with the one that reaches it the
-- breaker is CLOSED (or STRESSED, if it oscillates) and counts no failure and no probe.
pub run-successes :
    (b : CircuitBreaker) (ts : List ℕ) (now : ℕ)
    → b.state ≡ half_open
    → b.success_count + length ts + 1 ≡ b.success_threshold
    → let c = record_success (run b (successes ts)) now in
      ((run b (successes ts)).state ≡ half_open)
      × ((c.state ≡ closed) ⊎ (c.state ≡ stressed))
      × (c.failure_count ≡ 0)
      × (c.half_open_request_count ≡ 0)
unfolding run step
run-successes b [] now c h = let r = success_recovers b now c (omega arith) in (c, r.0, r.1, r.2)
run-successes b (t ∷ ts) now c h =
    let (still, count, limit) = success_half_open b t c (omega arith) in
    run-successes (record_success b t) ts now still (omega arith)

-- A manual reset gives CLOSED exactly where the breaker was CLOSED already or has, with this one, at
-- most five changes of state in the oscillation window; otherwise it gives STRESSED.
pub reset_closes :
    (b : CircuitBreaker) (now : ℕ)
    → ((reset b now).state ≡ closed) ↔ (
        (b.state ≡ closed)
        ⊎ (length (recent now b.oscillation_window (b.transition_times ++ now ∷ [])) ≤ 5))
unfolding reset transition_to
reset_closes b now = ground arith

-- A failed probe ends HALF_OPEN: the breaker is OPEN or STRESSED again and holds no probe.
pub probe_fails :
    (b : CircuitBreaker) (now at_change : ℕ)
    → b.state ≡ half_open
    → IsTripped (record_failure b now at_change)
      × ((record_failure b now at_change).half_open_request_count ≡ 0)
unfolding record_failure transition_to
probe_fails b now at_change h = ground arith
