-- ===== src/Order/Lifecycle.antt =====
-- Every allowed transition brings an order nearer to its end, so the lifecycle has no loop
-- (services/order-service/app/core/state_machine.py over `VALID_TRANSITIONS`).
use hot_sot.Base.{ℕ, ◌+◌, ◌≤◌, ◌<◌, ◌≡◌, refl, true, [], ◌∷◌, arith, ltb, length, ltb→lt, ap}
use hot_sot.Order.Status.{
  OrderStatus, created, payment_pending, payment_confirmed, slot_reserved, queue_assigned, in_prep,
  batch_wait, packing, ready, on_shelf, arrived, handoff_in_progress, picked, expired, refunded,
  cancelled, failed, valid_transitions,
}
use hot_sot.Order.Machine.{can_transition, validate_sequence, is_terminal, get_valid_next_states}
use hot_sot.Order.Tables.{for_all, for_all_sound, implies, default}
use hot_sot.Order.Sequence.{Steps, Chain, validate_sequence_iff}

-- How far along the lifecycle a state is.
abbrev pub stage : OrderStatus → ℕ
stage created = 0
stage payment_pending = 1
stage payment_confirmed = 2
stage slot_reserved = 3
stage queue_assigned = 4
stage batch_wait = 5
stage in_prep = 6
stage packing = 7
stage ready = 8
stage on_shelf = 9
stage arrived = 10
stage handoff_in_progress = 11
stage picked = 12
stage expired = 12
stage refunded = 13
stage cancelled = 13
stage failed = 13

stage_table :
    for_all (λ s. for_all (λ t. implies (can_transition default s t) (ltb (stage s) (stage t))))
    ≡ true
unfolding for_all can_transition valid_transitions
stage_table = refl

-- Every transition that the state machine allows raises the stage.
pub stage-lt-can_transition :
    (s t : OrderStatus) → can_transition default s t ≡ true → stage s < stage t
stage-lt-can_transition s t h =
    ltb→lt _ _ (ground (arith, for_all_sound _ t (for_all_sound _ s stage_table)))

stage-le : (s : OrderStatus) → stage s ≤ 13
stage-le created = omega arith
stage-le s = omega arith

length-Chain : (s : OrderStatus) (ts : Steps) → Chain default s ts → length ts + stage s ≤ 13
length-Chain s [] c = omega (arith, stage-le s)
length-Chain s ((from, to) ∷ ts) c =
    omega (arith, ap stage c.0, stage-lt-can_transition from to c.1, length-Chain to ts c.2)

-- An order makes at most 13 transitions: no sequence that `validate_sequence` accepts is longer.
pub length-validate_sequence : (ts : Steps) → validate_sequence default ts ≡ [] → length ts ≤ 13
length-validate_sequence ts h =
    omega (arith, length-Chain created ts ((validate_sequence_iff default ts).0 h))

-- An order that no transition can leave is in a state of `TERMINAL_STATES`: it never gets stuck
-- half way.
pub is_terminal-stuck :
    (s : OrderStatus) → get_valid_next_states default s ≡ [] → is_terminal s ≡ true
unfolding get_valid_next_states valid_transitions is_terminal
is_terminal-stuck created h = cc
is_terminal-stuck s h = ground arith
