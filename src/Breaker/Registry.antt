-- ===== src/Breaker/Registry.antt =====
-- `ServiceCircuitBreakerManager` of shared/circuit_breaker.py: a breaker for each service and dependency. The
-- names hold no colon, so a key is a pair.
use hot_sot.Base.{
  ℕ, ◌+◌, ◌≡◌, Bool, true, false, ◌&&◌, Option, none, some, List, [], ◌∷◌, ltb, ◌==◌, if◌then◌else◌,
  arith, and-left, and-right,
}
use hot_sot.Breaker.Core.{CircuitBreaker, new, reset}
use hot_sot.Breaker.Run.{Event, resets, step, run}
use hot_sot.Breaker.Invariant.{IsValid, new-IsValid, run-IsValid}

-- The dependencies of DEPENDENCY_DEFAULTS, and any other name.
pub data Dependency : Type 0 where
  redis elasticsearch payment_gateway kafka : Dependency
  other_dependency : ℕ → Dependency

abbrev pub code : Dependency → ℕ
code redis = 0
code elasticsearch = 1
code payment_gateway = 2
code kafka = 3
code (other_dependency n) = n + 4

pub record Key : Type 0 where
  pub service : ℕ
  pub dependency : Dependency

abbrev pub same_key : Key → Key → Bool
same_key k j = k.service == j.service && code k.dependency == code j.dependency

-- CircuitBreakerConfig without its names.
pub record Config : Type 0 where
  pub failure_threshold : ℕ
  pub recovery_timeout : ℕ
  pub success_threshold : ℕ
  pub half_open_max_requests : ℕ

abbrev with_defaults : ℕ → ℕ → Config
with_defaults failure_threshold recovery_timeout = record {
  failure_threshold = failure_threshold;
  recovery_timeout = recovery_timeout;
  success_threshold = 2;
  half_open_max_requests = 1;
}

-- `_resolve_defaults`
unfoldable pub resolve_defaults : Dependency → Config
resolve_defaults redis = with_defaults 5 30
resolve_defaults elasticsearch = with_defaults 3 60
resolve_defaults payment_gateway = with_defaults 3 120
resolve_defaults kafka = with_defaults 5 30
resolve_defaults (other_dependency n) = with_defaults 5 30

abbrev Manager : Type 0
Manager = List (Key × CircuitBreaker)

abbrev pub find : Key → Manager → Option CircuitBreaker
find k [] = none
find k ((j, b) ∷ m) = if same_key j k then some b else find k m

abbrev config_or : Dependency → Option Config → Config
config_or d none = resolve_defaults d
config_or d (some c) = c

abbrev create : Config → ℕ → CircuitBreaker
create c now =
    new c.failure_threshold c.recovery_timeout c.success_threshold c.half_open_max_requests now

abbrev found_or :
    Key → Option Config → ℕ → Manager → Option CircuitBreaker → Manager × CircuitBreaker
found_or k config now m none = let b = create (config_or k.dependency config) now in ((k, b) ∷ m, b)
found_or k config now m (some b) = (m, b)

unfoldable pub get_breaker : Key → Option Config → ℕ → Manager → Manager × CircuitBreaker
get_breaker k config now m = found_or k config now m (find k m)

-- An operation on the breaker of a key, which a caller got before.
unfoldable pub operate : Key → Event → Manager → Manager
operate k e [] = []
operate k e ((j, b) ∷ m) =
    let rest = operate k e m in if same_key j k then (j, step b e) ∷ rest else (j, b) ∷ rest

unfoldable pub reset_all_for_service : ℕ → ℕ → Manager → Manager
reset_all_for_service service now [] = []
reset_all_for_service service now ((j, b) ∷ m) =
    let rest = reset_all_for_service service now m in
    if j.service == service then (j, reset b now) ∷ rest else (j, b) ∷ rest

pub data Op : Type 0 where
  get : Key → Option Config → ℕ → Op
  act : Key → Event → Op
  reset_service : ℕ → ℕ → Op

abbrev perform : Op → Manager → Manager
perform (get k config now) m = (get_breaker k config now m).0
perform (act k e) m = operate k e m
perform (reset_service service now) m = reset_all_for_service service now m

unfoldable pub perform_all : List Op → Manager → Manager
perform_all [] m = m
perform_all (o ∷ os) m = perform_all os (perform o m)

abbrev is_proper_config : Option Config → Bool
is_proper_config none = true
is_proper_config (some c) = ltb 0 c.failure_threshold && ltb 0 c.half_open_max_requests

-- Whether each given configuration allows a failure and a probe.
abbrev is_proper : List Op → Bool
is_proper [] = true
is_proper (get k config now ∷ os) = is_proper_config config && is_proper os
is_proper (act k e ∷ os) = is_proper os
is_proper (reset_service service now ∷ os) = is_proper os

abbrev pub AllValid : Manager → Type 0
AllValid [] = Unit
AllValid ((k, b) ∷ m) = IsValid b × AllValid m

create-IsValid :
    (d : Dependency) (config : Option Config) (now : ℕ)
    → is_proper_config config ≡ true
    → IsValid (create (config_or d config) now)
unfolding resolve_defaults
create-IsValid d (some c) now h =
    new-IsValid c.failure_threshold c.recovery_timeout c.success_threshold c.half_open_max_requests
      now (ground arith) (ground arith)
create-IsValid redis none now h = new-IsValid 5 30 2 1 now (omega arith) (omega arith)
create-IsValid elasticsearch none now h = new-IsValid 3 60 2 1 now (omega arith) (omega arith)
create-IsValid payment_gateway none now h = new-IsValid 3 120 2 1 now (omega arith) (omega arith)
create-IsValid kafka none now h = new-IsValid 5 30 2 1 now (omega arith) (omega arith)
create-IsValid (other_dependency n) none now h =
    new-IsValid 5 30 2 1 now (omega arith) (omega arith)

get-AllValid :
    (k : Key) (config : Option Config) (now : ℕ) (m : Manager) (x : Option CircuitBreaker)
    → is_proper_config config ≡ true
    → AllValid m
    → AllValid (found_or k config now m x).0
get-AllValid k config now m none h v = (create-IsValid k.dependency config now h, v)
get-AllValid k config now m (some b) h v = v

either-AllValid :
    (c : Bool) (j : Key) (b b' : CircuitBreaker) (m : Manager)
    → IsValid b
    → IsValid b'
    → AllValid m
    → AllValid (if c then (j, b') ∷ m else (j, b) ∷ m)
either-AllValid true j b b' m v v' w = (v', w)
either-AllValid false j b b' m v v' w = (v, w)

operate-AllValid : (k : Key) (e : Event) (m : Manager) → AllValid m → AllValid (operate k e m)
unfolding operate run
operate-AllValid k e [] v = v
operate-AllValid k e ((j, b) ∷ m) v =
    either-AllValid (same_key j k) j b (step b e) (operate k e m) v.0 (run-IsValid b (e ∷ []) v.0)
      (operate-AllValid k e m v.1)

reset-AllValid :
    (service now : ℕ) (m : Manager) → AllValid m → AllValid (reset_all_for_service service now m)
unfolding reset_all_for_service run step
reset-AllValid service now [] v = v
reset-AllValid service now ((j, b) ∷ m) v =
    either-AllValid (j.service == service) j b (reset b now) (reset_all_for_service service now m)
      v.0 (run-IsValid b (resets now ∷ []) v.0) (reset-AllValid service now m v.1)

-- Through any calls for breakers, operations on them and resets of services, each breaker of the manager keeps
-- the invariant of a breaker, where each configuration that is given allows a failure and a probe.
pub perform_all-AllValid :
    (os : List Op) (m : Manager) → is_proper os ≡ true → AllValid m → AllValid (perform_all os m)
unfolding perform_all get_breaker
perform_all-AllValid [] m h v = v
perform_all-AllValid (get k config now ∷ os) m h v =
    perform_all-AllValid os (get_breaker k config now m).0
      (and-right (is_proper_config config) (is_proper os) h)
      (get-AllValid k config now m (find k m) (and-left (is_proper_config config) (is_proper os) h)
        v)
perform_all-AllValid (act k e ∷ os) m h v =
    perform_all-AllValid os (operate k e m) h (operate-AllValid k e m v)
perform_all-AllValid (reset_service service now ∷ os) m h v =
    perform_all-AllValid os (reset_all_for_service service now m) h (reset-AllValid service now m v)
