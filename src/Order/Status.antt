-- ===== src/Order/Status.antt =====
-- The order states and the tables over them: `OrderStatus`, `VALID_TRANSITIONS`,
-- `TERMINAL_STATES` and `CANCELLABLE_STATES` of shared/types/schemas.py.
use hot_sot.Base.{ℕ, Bool, false, ◌||◌, List, [], ◌∷◌, ◌==◌}

pub data OrderStatus : Type 0 where
  created payment_pending payment_confirmed slot_reserved queue_assigned : OrderStatus
  in_prep batch_wait packing ready on_shelf arrived handoff_in_progress : OrderStatus
  picked expired refunded cancelled failed : OrderStatus

-- A number for each state, by which two states are compared as the source compares strings.
abbrev pub code : OrderStatus → ℕ
code created = 0
code payment_pending = 1
code payment_confirmed = 2
code slot_reserved = 3
code queue_assigned = 4
code in_prep = 5
code batch_wait = 6
code packing = 7
code ready = 8
code on_shelf = 9
code arrived = 10
code handoff_in_progress = 11
code picked = 12
code expired = 13
code refunded = 14
code cancelled = 15
code failed = 16

abbrev pub same_status : OrderStatus → OrderStatus → Bool
same_status s t = code s == code t

-- `status in statuses`
abbrev pub contains : List OrderStatus → OrderStatus → Bool
contains [] s = false
contains (t ∷ ts) s = same_status t s || contains ts s

-- A `Dict[str, List[str]]`, as its entries in order.
abbrev pub TransitionTable : Type 0
TransitionTable = List (OrderStatus × List OrderStatus)

unfoldable pub valid_transitions : TransitionTable
valid_transitions =
    (created, payment_pending ∷ cancelled ∷ failed ∷ [])
    ∷ (payment_pending, payment_confirmed ∷ cancelled ∷ failed ∷ [])
    ∷ (payment_confirmed, slot_reserved ∷ cancelled ∷ [])
    ∷ (slot_reserved, queue_assigned ∷ cancelled ∷ [])
    ∷ (queue_assigned, in_prep ∷ batch_wait ∷ cancelled ∷ [])
    ∷ (batch_wait, in_prep ∷ cancelled ∷ [])
    ∷ (in_prep, packing ∷ failed ∷ [])
    ∷ (packing, ready ∷ failed ∷ [])
    ∷ (ready, on_shelf ∷ cancelled ∷ [])
    ∷ (on_shelf, arrived ∷ expired ∷ cancelled ∷ [])
    ∷ (arrived, handoff_in_progress ∷ expired ∷ [])
    ∷ (handoff_in_progress, picked ∷ expired ∷ [])
    ∷ (picked, [])
    ∷ (expired, refunded ∷ [])
    ∷ (refunded, [])
    ∷ (cancelled, [])
    ∷ (failed, [])
    ∷ []

unfoldable pub terminal_states : List OrderStatus
terminal_states = picked ∷ expired ∷ refunded ∷ cancelled ∷ failed ∷ []

unfoldable pub cancellable_states : List OrderStatus
cancellable_states =
    created ∷ payment_pending ∷ payment_confirmed ∷ slot_reserved ∷ queue_assigned ∷ batch_wait
    ∷ ready ∷ []
