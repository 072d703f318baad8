-- ===== src/Breaker/Core.antt =====
-- `class CircuitBreaker` of shared/circuit_breaker.py. A time is a whole number of
-- ticks of the monotonic clock, and so are the timeouts; each reading of the clock is an argument.
-- Every method runs under the breaker's lock, so it is one step.
use hot_sot.Base.{
  ℕ, suc, ◌+◌, ◌*◌, Bool, true, false, not, ◌&&◌, Option, none, some, List, [], ◌∷◌, ◌++◌, ltb, leb,
  ◌==◌, if◌then◌else◌, length,
}

-- `opened` is the source's OPEN.
pub data CircuitState : Type 0 where
  closed opened half_open stressed : CircuitState

abbrev pub same_state : CircuitState → CircuitState → Bool
same_state closed closed = true
same_state opened opened = true
same_state half_open half_open = true
same_state stressed stressed = true
same_state _ _ = false

pub record CircuitBreaker : Type 0 where
  pub failure_threshold : ℕ
  pub recovery_timeout : ℕ
  pub success_threshold : ℕ
  pub half_open_max_requests : ℕ
  pub state : CircuitState
  pub failure_count : ℕ
  pub success_count : ℕ
  pub last_failure_time : Option ℕ
  pub last_state_change_time : ℕ
  pub half_open_request_count : ℕ
  pub transition_count : ℕ
  pub transition_times : List ℕ
  pub effective_recovery_timeout : ℕ
  pub oscillation_window : ℕ
  pub total_requests : ℕ
  pub total_failures : ℕ
  pub total_successes : ℕ
  pub total_rejected : ℕ

-- `CircuitBreaker.__init__`, with the clock's reading last.
abbrev pub new : ℕ → ℕ → ℕ → ℕ → ℕ → CircuitBreaker
new failure_threshold recovery_timeout success_threshold half_open_max_requests now = record {
  failure_threshold = failure_threshold;
  recovery_timeout = recovery_timeout;
  success_threshold = success_threshold;
  half_open_max_requests = half_open_max_requests;
  state = closed;
  failure_count = 0;
  success_count = 0;
  last_failure_time = none;
  last_state_change_time = now;
  half_open_request_count = 0;
  transition_count = 0;
  transition_times = [];
  effective_recovery_timeout = recovery_timeout;
  oscillation_window = 2 * recovery_timeout;
  total_requests = 0;
  total_failures = 0;
  total_successes = 0;
  total_rejected = 0;
}

-- `last_failure_time is not None` and `now - last_failure_time >= effective_recovery_timeout`
abbrev pub has_elapsed : CircuitBreaker → ℕ → Option ℕ → Bool
has_elapsed b now none = false
has_elapsed b now (some last) = leb (last + b.effective_recovery_timeout) now

-- The same after the test `if self._last_failure_time`, which the time 0 fails.
abbrev pub has_elapsed_truthy : CircuitBreaker → ℕ → Option ℕ → Bool
has_elapsed_truthy b now none = false
has_elapsed_truthy b now (some last) =
    not (last == 0) && leb (last + b.effective_recovery_timeout) now

abbrev waiting_state : CircuitState → Bool → CircuitState
waiting_state opened elapsed = if elapsed then half_open else opened
waiting_state stressed elapsed = if elapsed then half_open else stressed
waiting_state s elapsed = s

-- The property `state`: an OPEN or STRESSED breaker shows HALF_OPEN once its timeout has elapsed.
unfoldable pub state_at : CircuitBreaker → ℕ → CircuitState
state_at b now = waiting_state b.state (has_elapsed b now b.last_failure_time)

-- `[t for t in times if t >= now - window]`
unfoldable pub recent : ℕ → ℕ → List ℕ → List ℕ
recent now window [] = []
recent now window (t ∷ ts) =
    let rest = recent now window ts in if leb now (t + window) then t ∷ rest else rest

-- The part of `_transition_to` for a change of state.
unfoldable pub changed : CircuitBreaker → CircuitState → ℕ → CircuitBreaker
changed b new_state now =
    let times = recent now b.oscillation_window (b.transition_times ++ now ∷ []) in
    let b' = record b {
      state = new_state;
      last_state_change_time = now;
      transition_count = suc b.transition_count;
      transition_times = times;
    } in
    if ltb 5 (length times) && not (same_state new_state stressed)
    then record b' { state = stressed; effective_recovery_timeout = b.recovery_timeout * 2 }
    else b'

-- `_transition_to`
unfoldable pub transition_to : CircuitBreaker → CircuitState → ℕ → CircuitBreaker
unfolding changed
transition_to b new_state now =
    if same_state b.state new_state
    then record b { state = new_state; last_state_change_time = now }
    else changed b new_state now

-- The readings of one `allow_request`: in the property `state`, in the test of the timeout, and in
-- `_transition_to`.
pub record Readings : Type 0 where
  pub at_state : ℕ
  pub at_test : ℕ
  pub at_change : ℕ

abbrev begin_probe : CircuitBreaker → ℕ → CircuitBreaker
begin_probe b now = record (transition_to b half_open now) {
  success_count = 0;
  half_open_request_count = 1;
}

abbrev allow_waiting : CircuitBreaker → Readings → CircuitBreaker × Bool
allow_waiting b r =
    if has_elapsed_truthy b r.at_test b.last_failure_time
    then (begin_probe b r.at_change, true)
    else (b, false)

abbrev allow_probe : CircuitBreaker → CircuitBreaker × Bool
allow_probe b =
    if ltb b.half_open_request_count b.half_open_max_requests
    then (record b { half_open_request_count = suc b.half_open_request_count }, true)
    else (b, false)

abbrev allow_in : CircuitState → CircuitBreaker → Readings → CircuitBreaker × Bool
allow_in closed b r = (b, true)
allow_in opened b r = allow_waiting b r
allow_in stressed b r = allow_waiting b r
allow_in half_open b r = allow_probe b

unfoldable pub allow_request : CircuitBreaker → Readings → CircuitBreaker × Bool
unfolding state_at
allow_request b r = allow_in (state_at b r.at_state) b r

abbrev recovered : CircuitBreaker → ℕ → CircuitBreaker
recovered b now = record (transition_to b closed now) {
  failure_count = 0;
  success_count = 0;
  half_open_request_count = 0;
  effective_recovery_timeout = b.recovery_timeout;
  transition_times = [];
}

abbrev success_in : CircuitState → CircuitBreaker → ℕ → CircuitBreaker
success_in half_open b now =
    let b' = record b { success_count = suc b.success_count } in
    if leb b.success_threshold (suc b.success_count) then recovered b' now else b'
success_in closed b now = record b { failure_count = 0 }
success_in _ b now = b

unfoldable pub record_success : CircuitBreaker → ℕ → CircuitBreaker
record_success b now =
    let b' = record b {
      total_requests = suc b.total_requests;
      total_successes = suc b.total_successes;
    } in
    success_in b.state b' now

abbrev failure_in : CircuitState → CircuitBreaker → ℕ → CircuitBreaker
failure_in half_open b now = record (transition_to b opened now) { half_open_request_count = 0 }
failure_in closed b now =
    if leb b.failure_threshold b.failure_count then transition_to b opened now else b
failure_in _ b now = b

-- The clock is read for the time of the failure and again in `_transition_to`.
unfoldable pub record_failure : CircuitBreaker → ℕ → ℕ → CircuitBreaker
record_failure b now at_change =
    let b' = record b {
      total_requests = suc b.total_requests;
      total_failures = suc b.total_failures;
      failure_count = suc b.failure_count;
      last_failure_time = some now;
    } in
    failure_in b.state b' at_change

unfoldable pub reset : CircuitBreaker → ℕ → CircuitBreaker
reset b now = recovered b now

unfoldable pub force_open : CircuitBreaker → ℕ → ℕ → CircuitBreaker
force_open b at_change now = record (transition_to b opened at_change) {
  last_failure_time = some now;
}

-- How the protected function ends.
pub data Outcome : Type 0 where
  returns raises : Outcome

-- What a caller of `call` or `protect` sees; `circuit_open` is CircuitOpenError.
pub data Reply : Type 0 where
  result failure circuit_open : Reply

abbrev finish : CircuitBreaker → Outcome → ℕ → ℕ → CircuitBreaker × Reply
finish b returns now at_change = (record_success b at_change, result)
finish b raises now at_change = (record_failure b now at_change, failure)

-- `call` and `protect` with no other call between the admission and the end of the function.
unfoldable pub call : CircuitBreaker → Readings → Outcome → ℕ → ℕ → CircuitBreaker × Reply
call b r outcome now at_change =
    let (b', allowed) = allow_request b r in
    if allowed
    then finish b' outcome now at_change
    else (record b' { total_rejected = suc b'.total_rejected }, circuit_open)
