-- ===== src/Order/Examples.antt =====
-- Runs of the order state machine, and its theorems at concrete inputs.
use hot_sot.Base.{suc, ◌≤◌, ◌≡◌, refl, ◌↔◌, true, false, none, some, [], ◌∷◌, arith, length}
use hot_sot.Order.Status.{
  created, payment_pending, payment_confirmed, slot_reserved, queue_assigned, in_prep, batch_wait,
  packing, ready, on_shelf, arrived, handoff_in_progress, picked, expired, refunded, contains,
  valid_transitions,
}
use hot_sot.Order.Machine.{
  Context, ok, err, invalid_transition, guard_violation, can_transition, transition,
  validate_sequence, wrong_from, bad_transition,
}
use hot_sot.Order.Tables.{default, GuardHolds, transition_lem}
use hot_sot.Order.Lifecycle.{stage, stage-lt-can_transition, length-validate_sequence}
use hot_sot.Order.Sequence.{Chain, validate_sequence_iff, Steps}
use hot_sot.Order.Milestones.{visited, contains-visited}

abbrev near : Context
near = record {
  slot_available = none;
  waitlist_allowed = none;
  priority_score = none;
  shelf_id = none;
  shelf_capacity = none;
  gps_distance = some 120;
  qr_scan_valid = none;
  current_state = none;
  shelf_ttl_exceeded = none;
  has_other_keys = false;
}

abbrev far : Context
far = record near { gps_distance = some 151 }

abbrev empty : Context
empty = record near { gps_distance = none }

arrival_near : transition default on_shelf arrived (some near) ≡ ok arrived
unfolding transition valid_transitions
arrival_near = refl

arrival_far :
    transition default on_shelf arrived (some far) ≡ err (guard_violation on_shelf arrived)
unfolding transition valid_transitions
arrival_far = refl

no_way_back : transition default ready created none ≡ err (invalid_transition ready created)
unfolding transition valid_transitions
no_way_back = refl

abbrev whole_life : Steps
whole_life =
    (created, payment_pending)
    ∷ (payment_pending, payment_confirmed)
    ∷ (payment_confirmed, slot_reserved)
    ∷ (slot_reserved, queue_assigned)
    ∷ (queue_assigned, batch_wait)
    ∷ (batch_wait, in_prep)
    ∷ (in_prep, packing)
    ∷ (packing, ready)
    ∷ (ready, on_shelf)
    ∷ (on_shelf, arrived)
    ∷ (arrived, handoff_in_progress)
    ∷ (handoff_in_progress, expired)
    ∷ (expired, refunded)
    ∷ []

whole_life_valid : validate_sequence default whole_life ≡ []
unfolding validate_sequence can_transition valid_transitions
whole_life_valid = refl

broken_sequence :
    validate_sequence default ((created, payment_pending) ∷ (created, picked) ∷ [])
    ≡ wrong_from 1 payment_pending created ∷ bad_transition 1 created picked ∷ []
unfolding validate_sequence can_transition valid_transitions
broken_sequence = refl

transition_lem_example :
    ((transition default on_shelf arrived (some near) ≡ ok arrived)
      ↔ ((can_transition default on_shelf arrived ≡ true) × GuardHolds arrived near))
    × ((transition default on_shelf arrived (some near) ≡ err (invalid_transition on_shelf arrived))
        ↔ (can_transition default on_shelf arrived ≡ false))
    × ((transition default on_shelf arrived (some near) ≡ err (guard_violation on_shelf arrived))
        ↔ ((can_transition default on_shelf arrived ≡ true) × (¬ GuardHolds arrived near)))
transition_lem_example = transition_lem default on_shelf arrived near refl

stage-lt-can_transition_example : suc (stage on_shelf) ≤ stage expired
unfolding can_transition valid_transitions
stage-lt-can_transition_example = stage-lt-can_transition on_shelf expired refl

length-validate_sequence_example : length whole_life ≤ 13
length-validate_sequence_example = length-validate_sequence whole_life whole_life_valid

abbrev in_kitchen : Steps
in_kitchen =
    (created, payment_pending)
    ∷ (payment_pending, payment_confirmed)
    ∷ (payment_confirmed, slot_reserved)
    ∷ (slot_reserved, queue_assigned)
    ∷ (queue_assigned, batch_wait)
    ∷ []

in_kitchen_valid : validate_sequence default in_kitchen ≡ []
unfolding validate_sequence can_transition valid_transitions
in_kitchen_valid = refl

contains-visited_example : contains (visited in_kitchen) payment_confirmed ≡ true
contains-visited_example =
    contains-visited payment_confirmed in_kitchen in_kitchen_valid refl refl (omega arith)

validate_sequence_iff_example :
    (validate_sequence default in_kitchen ≡ []) ↔ Chain default created in_kitchen
validate_sequence_iff_example = validate_sequence_iff default in_kitchen
