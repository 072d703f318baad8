-- ===== src/Order/Machine.antt =====
-- `StateMachine` of services/order-service/app/core/state_machine.py, method by method, and the
-- keys of `GUARD_RULES` in shared/types/schemas.py. An exception is a value of `Failure`.
use hot_sot.Base.{
  ℕ, suc, Bool, true, false, not, ◌&&◌, ◌||◌, Option, none, some, List, [], ◌∷◌, ◌++◌, leb, ltb,
  if◌then◌else◌,
}
use hot_sot.Order.Status.{
  OrderStatus, created, payment_confirmed, slot_reserved, queue_assigned, in_prep, batch_wait,
  packing, ready, on_shelf, arrived, picked, expired, same_status, contains, TransitionTable,
  valid_transitions, terminal_states, cancellable_states,
}

-- The keys of a guard's context dict; an absent key, or for the score and the shelf `None`, is
-- `none`. A distance is its ceiling in metres, and a capacity below 0 is 0: the tests `<= 150` and
-- `> 0` read them alike. `has_other_keys` says that the dict has a key which no guard reads.
pub record Context : Type 0 where
  pub slot_available : Option Bool
  pub waitlist_allowed : Option Bool
  pub priority_score : Option ℕ
  pub shelf_id : Option ℕ
  pub shelf_capacity : Option ℕ
  pub gps_distance : Option ℕ
  pub qr_scan_valid : Option Bool
  pub current_state : Option OrderStatus
  pub shelf_ttl_exceeded : Option Bool
  pub has_other_keys : Bool

abbrev pub get_or {ℓ} : {A : Type ℓ} → Option A → A → A
get_or none d = d
get_or (some a) d = a

abbrev pub is_some {ℓ} : {A : Type ℓ} → Option A → Bool
is_some none = false
is_some (some a) = true

-- `bool(context)` of a dict: it has a key.
abbrev pub is_nonempty : Context → Bool
is_nonempty c =
    is_some c.slot_available
    || is_some c.waitlist_allowed
    || is_some c.priority_score
    || is_some c.shelf_id
    || is_some c.shelf_capacity
    || is_some c.gps_distance
    || is_some c.qr_scan_valid
    || is_some c.current_state
    || is_some c.shelf_ttl_exceeded
    || c.has_other_keys

pub data Failure : Type 0 where
  invalid_transition : OrderStatus → OrderStatus → Failure
  guard_violation : OrderStatus → OrderStatus → Failure

pub data Result (A : Type 0) : Type 0 where
  ok : A → Result A
  err : Failure → Result A

-- `self.guards` is stored and read by no method, so it is left out.
pub record StateMachine : Type 0 where
  pub transitions : TransitionTable

-- `transitions or VALID_TRANSITIONS`: no table and an empty table both give the default.
abbrev pub new : Option TransitionTable → StateMachine
new none = record { transitions = valid_transitions }
new (some []) = record { transitions = valid_transitions }
new (some (e ∷ es)) = record { transitions = e ∷ es }

-- `transitions.get(current, [])`
abbrev pub lookup : TransitionTable → OrderStatus → List OrderStatus
lookup [] s = []
lookup ((t, next) ∷ es) s = if same_status t s then next else lookup es s

unfoldable pub get_valid_next_states : StateMachine → OrderStatus → List OrderStatus
get_valid_next_states m current = lookup m.transitions current

unfoldable pub can_transition : StateMachine → OrderStatus → OrderStatus → Bool
can_transition m current target = contains (lookup m.transitions current) target

-- `GUARD_RULES.get(target)` is there for these states.
unfoldable pub has_guard_rule : OrderStatus → Bool
has_guard_rule slot_reserved = true
has_guard_rule queue_assigned = true
has_guard_rule on_shelf = true
has_guard_rule arrived = true
has_guard_rule expired = true
has_guard_rule _ = false

-- `context.get("current_state", "") != "PICKED"`
abbrev not_picked : Option OrderStatus → Bool
not_picked none = true
not_picked (some s) = not (same_status s picked)

unfoldable pub evaluate_guard : OrderStatus → Context → Bool
evaluate_guard slot_reserved c = get_or c.slot_available true || get_or c.waitlist_allowed false
evaluate_guard queue_assigned c = is_some c.priority_score
evaluate_guard on_shelf c = is_some c.shelf_id && ltb 0 (get_or c.shelf_capacity 0)
evaluate_guard arrived c = leb (get_or c.gps_distance 999) 150 || get_or c.qr_scan_valid false
evaluate_guard expired c = get_or c.shelf_ttl_exceeded false && not_picked c.current_state
evaluate_guard _ c = true

-- `guard_rule and context`: the guard is evaluated only on a context that has a key.
abbrev pub guard_applies : OrderStatus → Option Context → Bool
guard_applies target none = false
guard_applies target (some c) = has_guard_rule target && is_nonempty c

abbrev pub guard_passes : OrderStatus → Option Context → Bool
guard_passes target none = true
guard_passes target (some c) = evaluate_guard target c

unfoldable pub transition :
    StateMachine → OrderStatus → OrderStatus → Option Context → Result OrderStatus
unfolding can_transition has_guard_rule evaluate_guard
transition m current target context =
    if can_transition m current target
    then (if guard_applies target context && not (guard_passes target context)
        then err (guard_violation current target)
        else ok target)
    else err (invalid_transition current target)

unfoldable pub is_terminal : OrderStatus → Bool
unfolding terminal_states
is_terminal s = contains terminal_states s

unfoldable pub is_cancellable : OrderStatus → Bool
unfolding cancellable_states
is_cancellable s = contains cancellable_states s

pub data CompensationStep : Type 0 where
  refund_payment release_slot release_shelf : CompensationStep

-- `COMPENSATION_STATES.get(state, [])`
unfoldable pub get_compensation_steps : OrderStatus → List CompensationStep
get_compensation_steps payment_confirmed = refund_payment ∷ []
get_compensation_steps slot_reserved = release_slot ∷ []
get_compensation_steps queue_assigned = release_slot ∷ []
get_compensation_steps in_prep = refund_payment ∷ release_slot ∷ []
get_compensation_steps batch_wait = release_slot ∷ []
get_compensation_steps packing = refund_payment ∷ release_slot ∷ []
get_compensation_steps ready = refund_payment ∷ release_slot ∷ []
get_compensation_steps on_shelf = refund_payment ∷ release_shelf ∷ release_slot ∷ []
get_compensation_steps _ = []

pub record StateInfo : Type 0 where
  pub state : OrderStatus
  pub terminal : Bool
  pub cancellable : Bool
  pub valid_next_states : List OrderStatus
  pub guard_rule : Bool
  pub compensation_steps : List CompensationStep

unfoldable pub get_state_info : StateMachine → OrderStatus → StateInfo
get_state_info m s = record {
  state = s;
  terminal = is_terminal s;
  cancellable = is_cancellable s;
  valid_next_states = get_valid_next_states m s;
  guard_rule = has_guard_rule s;
  compensation_steps = get_compensation_steps s;
}

-- The two messages that `validate_sequence` appends, with the step's index.
pub data SequenceError : Type 0 where
  wrong_from : ℕ → OrderStatus → OrderStatus → SequenceError
  bad_transition : ℕ → OrderStatus → OrderStatus → SequenceError

abbrev pub from_errors : ℕ → OrderStatus → OrderStatus → List SequenceError
from_errors i current from = if same_status from current then [] else wrong_from i current from ∷ []

abbrev pub step_errors : StateMachine → ℕ → OrderStatus → OrderStatus → List SequenceError
step_errors m i from to = if can_transition m from to then [] else bad_transition i from to ∷ []

-- The loop of `validate_sequence`, from step `i` with the state reached so far.
unfoldable pub validate_from :
    StateMachine → ℕ → OrderStatus → List (OrderStatus × OrderStatus) → List SequenceError
validate_from m i current [] = []
validate_from m i current ((from, to) ∷ ts) =
    from_errors i current from ++ (step_errors m i from to ++ validate_from m (suc i) to ts)

unfoldable pub validate_sequence :
    StateMachine → List (OrderStatus × OrderStatus) → List SequenceError
unfolding validate_from
validate_sequence m ts = validate_from m 0 created ts
