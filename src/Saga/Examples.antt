-- ===== src/Saga/Examples.antt =====
-- Sagas, and the theorems on them at concrete inputs.
use Prim.Native.String.{String}
use hot_sot.Base.{◌≡◌, refl, true, false, List, [], ◌∷◌, length, leb, if◌then◌else◌, arith}
use hot_sot.Saga.Definition.{
  order_lifecycle, refund, order_lifecycle_saga, refund_saga, get_saga_definition,
}
use hot_sot.Saga.Engine.{
  Saga, running, completed, compensated, succeed, fail, compensate, compensations, advance_saga,
  start_saga, check_timeouts,
}
use hot_sot.Saga.Progress.{successes, successes-status}
use hot_sot.Saga.Safety.{Call, start, step, check, calls, call, IsValid, calls-IsValid}

abbrev fresh : Saga
fresh = record {
  order_id = 4;
  saga_type = order_lifecycle;
  tenant_id = 2;
  current_step_index = 3;
  steps_completed = "create_order" ∷ "initiate_payment" ∷ "confirm_payment" ∷ [];
  steps_failed = [];
  status = running;
  timeout_at = 99;
}

-- No slot: the payment is refunded, then the order cancelled twice.
no_slot :
    (fail order_lifecycle_saga fresh "reserve_slot").emitted
    ≡ "ORDER_REFUNDED" ∷ "ORDER_CANCELLED" ∷ "ORDER_CANCELLED" ∷ []
unfolding fail compensate compensations order_lifecycle_saga
no_slot = refl

abbrev a_day : List Call
a_day =
    start 1 4 refund 2 0
    ∷ step 1 "initiate_refund" true
    ∷ start 2 5 order_lifecycle 2 0
    ∷ step 2 "create_order" false
    ∷ check 3_600_000_001
    ∷ []

abbrev late_refund : Saga
late_refund = record {
  order_id = 4;
  saga_type = refund;
  tenant_id = 2;
  current_step_index = 1;
  steps_completed = "initiate_refund" ∷ [];
  steps_failed = [];
  status = compensated;
  timeout_at = 3_600_000_000;
}

calls-IsValid_example : IsValid late_refund
unfolding calls call start_saga advance_saga check_timeouts succeed fail compensate
    get_saga_definition refund_saga order_lifecycle_saga
calls-IsValid_example = calls-IsValid a_day 1 late_refund refl

abbrev seven : List String
seven =
    "reserve_slot" ∷ "assign_queue" ∷ "start_prep" ∷ "start_prep" ∷ "complete_prep" ∷ "a" ∷ "b" ∷ []

-- The sixth success at the latest completes a saga, though its slot was never reserved.
successes-status_example :
    (successes order_lifecycle_saga fresh seven).status
    ≡ (if leb (length order_lifecycle_saga.steps) 10 then completed else running)
unfolding order_lifecycle_saga
successes-status_example = successes-status order_lifecycle_saga fresh seven (omega arith)
