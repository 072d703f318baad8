-- ===== src/Order/Tables.antt =====
-- What the tables of shared/types/schemas.py and the guards of
-- services/order-service/app/core/state_machine.py say together. A statement over all states is
-- checked by evaluation at each of them.
use hot_sot.Base.{
  ◌≤◌, ◌≡◌, refl, ◌≢◌, ◌↔◌, ◌⊎◌, inl, inr, Bool, true, false, not, ◌&&◌, ◌||◌, Option, none, some,
  arith, Bool-cases,
}
use hot_sot.Order.Status.{
  OrderStatus, created, payment_pending, payment_confirmed, slot_reserved, queue_assigned, in_prep,
  batch_wait, packing, ready, on_shelf, arrived, handoff_in_progress, picked, expired, refunded,
  cancelled, failed, same_status, valid_transitions,
}
use hot_sot.Order.Machine.{
  Context, get_or, is_nonempty, ok, err, guard_violation, invalid_transition, StateMachine, new,
  can_transition, has_guard_rule, evaluate_guard, transition, is_terminal, is_cancellable,
}

unfoldable pub for_all : (OrderStatus → Bool) → Bool
for_all p =
    p created
    && p payment_pending
    && p payment_confirmed
    && p slot_reserved
    && p queue_assigned
    && p in_prep
    && p batch_wait
    && p packing
    && p ready
    && p on_shelf
    && p arrived
    && p handoff_in_progress
    && p picked
    && p expired
    && p refunded
    && p cancelled
    && p failed

pub for_all_sound : (p : OrderStatus → Bool) (s : OrderStatus) → for_all p ≡ true → p s ≡ true
unfolding for_all
for_all_sound p created h = ground arith
for_all_sound p s h = ground arith

abbrev pub implies : Bool → Bool → Bool
implies a b = not a || b

abbrev pub default : StateMachine
default = new none

abbrev same_bool : Bool → Bool → Bool
same_bool a b = implies a b && implies b a

same_bool_eq : (a b : Bool) → same_bool a b ≡ true → a ≡ b
same_bool_eq a b h = ground arith

-- The state machine can cancel an order exactly in the states of `CANCELLABLE_STATES` and, beyond
-- them, in ON_SHELF.
pub can_transition-cancelled :
    (s : OrderStatus)
    → can_transition default s cancelled ≡ (is_cancellable s || same_status s on_shelf)
unfolding can_transition valid_transitions is_cancellable
can_transition-cancelled created = refl
can_transition-cancelled s = refl

terminal_table :
    for_all (λ s. for_all (λ t.
      implies
        (is_terminal s)
        (same_bool (can_transition default s t) (same_status s expired && same_status t refunded))))
    ≡ true
unfolding for_all can_transition valid_transitions is_terminal
terminal_table = refl

-- From a state of `TERMINAL_STATES` the only transition is the one from EXPIRED to REFUNDED.
pub can_transition-terminal :
    (s t : OrderStatus)
    → is_terminal s ≡ true
    → can_transition default s t ≡ (same_status s expired && same_status t refunded)
can_transition-terminal s t h = ground (
  arith,
  same_bool_eq (can_transition default s t) (same_status s expired && same_status t refunded),
  for_all_sound _ t (for_all_sound _ s terminal_table),
)

-- What the guard of a target state asks of a context, as a proposition.
abbrev pub GuardHolds : OrderStatus → Context → Type 0
GuardHolds slot_reserved c = (c.slot_available ≢ some false) ⊎ (c.waitlist_allowed ≡ some true)
GuardHolds queue_assigned c = c.priority_score ≢ none
GuardHolds on_shelf c = (c.shelf_id ≢ none) × (1 ≤ get_or c.shelf_capacity 0)
GuardHolds arrived c = (get_or c.gps_distance 999 ≤ 150) ⊎ (c.qr_scan_valid ≡ some true)
GuardHolds expired c = (c.shelf_ttl_exceeded ≡ some true) × (c.current_state ≢ some picked)
GuardHolds _ c = Unit

same_status-picked : (s : OrderStatus) → (same_status s picked ≡ true) ↔ (s ≡ picked)
same_status-picked s = ground arith

evaluate_guard_iff : (t : OrderStatus) (c : Context) → (evaluate_guard t c ≡ true) ↔ GuardHolds t c
unfolding evaluate_guard
evaluate_guard_iff slot_reserved c = ground arith
evaluate_guard_iff queue_assigned c = ground arith
evaluate_guard_iff on_shelf c = ground arith
evaluate_guard_iff arrived c = ground arith
evaluate_guard_iff expired c = ground arith
evaluate_guard_iff t c = (λ _. tt, λ _. refl)

guard_fails :
    (t : OrderStatus) (c : Context)
    → (has_guard_rule t && true && not (evaluate_guard t c)) ≡ not (evaluate_guard t c)
unfolding has_guard_rule evaluate_guard
guard_fails slot_reserved c = refl
guard_fails t c = refl

-- With a context that has a key, a transition succeeds with the target exactly when the table allows
-- it and the target's guard holds; it raises InvalidTransitionError exactly when the table does not
-- allow it, and GuardViolationError exactly when the table allows it and the guard fails.
pub transition_lem :
    (m : StateMachine) (s t : OrderStatus) (c : Context)
    → is_nonempty c ≡ true
    → ((transition m s t (some c) ≡ ok t) ↔ ((can_transition m s t ≡ true) × GuardHolds t c))
      × ((transition m s t (some c) ≡ err (invalid_transition s t))
          ↔ (can_transition m s t ≡ false))
      × ((transition m s t (some c) ≡ err (guard_violation s t))
          ↔ ((can_transition m s t ≡ true) × (¬ GuardHolds t c)))
unfolding transition
transition_lem m s t c h = elim (Bool-cases (can_transition m s t)) [
  | inl can ↦ elim (Bool-cases (evaluate_guard t c)) [
    | inl passes ↦
        rw (h, can, guard_fails t c, passes) (ground (arith, (evaluate_guard_iff t c).0 passes))
    | inr fails ↦ rw (h, can, guard_fails t c, fails) (ground (arith, evaluate_guard_iff t c))
  ]
  | inr cannot ↦ rw (h, cannot) (ground arith)
]

-- Without a context, or with an empty one, no guard is evaluated: a transition succeeds exactly when
-- the table allows it.
pub transition_unguarded :
    (m : StateMachine) (s t : OrderStatus) (c : Option Context)
    → ((d : Context) → c ≡ some d → is_nonempty d ≡ false)
    → (transition m s t c ≡ ok t) ↔ (can_transition m s t ≡ true)
unfolding transition
transition_unguarded m s t none h = ground arith
transition_unguarded m s t (some d) h = rw (h d refl) (ground arith)
