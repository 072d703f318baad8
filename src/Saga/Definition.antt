-- ===== src/Saga/Definition.antt =====
-- The saga definitions of services/order-service/app/core/saga.py.
use Prim.Native.String.{String}
use hot_sot.Base.{ℕ, Bool, true, false, Option, none, some, List, [], ◌∷◌}

pub record SagaStep : Type 0 where
  pub name : String
  pub action : String
  pub compensation : String
  pub timeout_seconds : ℕ
  pub required : Bool

pub record SagaDefinition : Type 0 where
  pub name : String
  pub steps : List SagaStep
  pub timeout_seconds : ℕ

abbrev step : String → String → String → ℕ → SagaStep
step name action compensation timeout_seconds = record {
  name = name;
  action = action;
  compensation = compensation;
  timeout_seconds = timeout_seconds;
  required = true;
}

unfoldable pub order_lifecycle_saga : SagaDefinition
order_lifecycle_saga = record {
  name = "OrderLifecycle";
  steps =
      step "create_order" "ORDER_CREATED" "ORDER_CANCELLED" 30
      ∷ step "initiate_payment" "PAYMENT_PENDING" "ORDER_CANCELLED" 120
      ∷ step "confirm_payment" "PAYMENT_CONFIRMED" "ORDER_REFUNDED" 300
      ∷ step "reserve_slot" "SLOT_RESERVED" "ORDER_CANCELLED" 60
      ∷ step "assign_queue" "QUEUE_ASSIGNED" "ORDER_CANCELLED" 30
      ∷ step "start_prep" "PREP_STARTED" "ORDER_CANCELLED" 600
      ∷ step "complete_prep" "PREP_COMPLETED" "ORDER_CANCELLED" 600
      ∷ step "assign_shelf" "SHELF_ASSIGNED" "ORDER_CANCELLED" 60
      ∷ record (step "detect_arrival" "ARRIVAL_DETECTED" "" 900) { required = false }
      ∷ step "complete_handoff" "HANDOFF_COMPLETED" "" 300
      ∷ [];
  timeout_seconds = 3600;
}

unfoldable pub refund_saga : SagaDefinition
refund_saga = record {
  name = "Refund";
  steps =
      step "initiate_refund" "ORDER_REFUNDED" "" 60
      ∷ step "process_refund" "COMPENSATION_TRIGGERED" "" 300
      ∷ step "confirm_refund" "COMPENSATION_COMPLETED" "" 300
      ∷ [];
  timeout_seconds = 3600;
}

unfoldable pub expiry_saga : SagaDefinition
expiry_saga = record {
  name = "Expiry";
  steps =
      step "mark_expired" "ORDER_EXPIRED" "" 30
      ∷ step "trigger_refund" "COMPENSATION_TRIGGERED" "" 300
      ∷ step "complete_refund" "COMPENSATION_COMPLETED" "" 300
      ∷ [];
  timeout_seconds = 3600;
}

-- A text that names a saga, or any other.
pub data SagaType : Type 0 where
  order_lifecycle refund expiry unknown : SagaType

unfoldable pub get_saga_definition : SagaType → Option SagaDefinition
get_saga_definition order_lifecycle = some order_lifecycle_saga
get_saga_definition refund = some refund_saga
get_saga_definition expiry = some expiry_saga
get_saga_definition unknown = none
