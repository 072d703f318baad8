-- ===== src/Routes/Examples.antt =====
-- The theorems on the order routes at concrete inputs, and runs of the routes
-- (services/order-service/app/routes/orders.py).
use hot_sot.Base.{ℕ, ◌≡◌, refl, true, false, Option, none, some, List, [], ◌∷◌}
use hot_sot.Order.Status.{OrderStatus, valid_transitions}
use hot_sot.Order.Machine.{can_transition, transition, has_guard_rule, evaluate_guard}
use hot_sot.Routes.Store.{
  UserTier, Order, Answers, never, at_second, order_created, payment_pending, prep_completed,
}
use hot_sot.Routes.Payment.{create_order, initiate_payment, confirm_payment_webhook, new_order}
use hot_sot.Routes.Preparation.{
  assign_queue, start_prep, mark_ready, priority_of, tier_weight, queue_of,
}
use hot_sot.Routes.Pickup.{
  assign_shelf, confirm_arrival, confirm_handoff, determine_zone, auto_assign_shelf,
}
use hot_sot.Routes.Service.{
  Route, pay, queue, prep, ready, shelf, arrival, handoff, cancel, handler, Store, Call, create,
  serve, serves, check_idempotency, store_idempotency, returned, http,
}
use hot_sot.Routes.Log.{Audited, serves-Audited}
use hot_sot.Routes.HandedOver.{not_handed_over}
use hot_sot.Routes.Stuck.{
  StatusIs, paid_or_cancelled, serves-not_handed_over, webhook_call, serves-paid_or_cancelled,
}
use hot_sot.Routes.Effects.{Untouched, serve-Untouched, Mirrors, serves-Mirrors}
use hot_sot.Routes.Idempotency.{serve-again}

abbrev up : Answers
up = record {
  has_redis = true;
  kitchen_load = some 3;
  shelf_free = λ s. true;
  reads = true;
  writes = true;
  now = 100;
  fssai_failed = false;
  db_fails = never;
}

abbrev new_row : Order
new_row = record (new_order 1 UserTier.plus [] 250) { status = OrderStatus.payment_pending }

abbrev fresh : Store
fresh = record {
  order = some new_row;
  events = order_created ∷ payment_pending ∷ [];
  cache = (9, new_row) ∷ [];
  published = order_created ∷ payment_pending ∷ [];
  locks = [];
  cached_status = some (OrderStatus.payment_pending, 700);
}

abbrev by : Route → Option ℕ → Call
by route key = record { route = route; tenant = 1; key = key; answers = up }

-- An order is paid, prepared, shelved and met by its user, who does not get it.
abbrev day : List Call
day =
    by (pay 7) (some 1)
    ∷ by queue none
    ∷ by prep none
    ∷ by ready none
    ∷ by (shelf none none) (some 2)
    ∷ by (arrival true) (some 3)
    ∷ by handoff (some 4)
    ∷ []

fresh_created : create 1 UserTier.plus [] 250 9 up ≡ some fresh
unfolding create create_order transition can_transition valid_transitions has_guard_rule
    evaluate_guard
fresh_created = refl

abbrev status_of : Option Order → Option OrderStatus
status_of none = none
status_of (some o) = some o.status

-- The last call of the day gets a 409, and the order stays ARRIVED.
day_ends : status_of (serves day fresh).order ≡ some OrderStatus.arrived
unfolding serves serve check_idempotency store_idempotency handler initiate_payment assign_queue
    start_prep mark_ready assign_shelf confirm_arrival confirm_handoff priority_of tier_weight
    queue_of auto_assign_shelf determine_zone transition can_transition valid_transitions
    has_guard_rule evaluate_guard
day_ends = refl

serves-Audited_example : Audited (serves day fresh).order (serves day fresh).events
serves-Audited_example = serves-Audited day 1 UserTier.plus [] 250 9 up fresh fresh_created

serves-not_handed_over_example : StatusIs not_handed_over (serves day fresh)
serves-not_handed_over_example =
    serves-not_handed_over day 1 UserTier.plus [] 250 9 up fresh fresh_created

webhook_returns :
    (serve (webhook_call 1 7 up) fresh).0
    ≡ returned (record new_row { status = OrderStatus.payment_confirmed; payment_ref = some 7 })
unfolding serve check_idempotency handler confirm_payment_webhook transition can_transition
    valid_transitions has_guard_rule evaluate_guard
webhook_returns = refl

serves-paid_or_cancelled_example :
    StatusIs paid_or_cancelled (serves day (serve (webhook_call 1 7 up) fresh).1)
serves-paid_or_cancelled_example =
    serves-paid_or_cancelled day 1 7 up fresh
      (record new_row { status = OrderStatus.payment_confirmed; payment_ref = some 7 })
      webhook_returns

handoff_early : (serve (by queue none) fresh).0 ≡ http 409
unfolding serve check_idempotency handler assign_queue transition can_transition valid_transitions
    has_guard_rule evaluate_guard
handoff_early = refl

serve-Untouched_example : Untouched fresh (serve (by queue none) fresh).1
serve-Untouched_example = serve-Untouched (by queue none) fresh 409 refl handoff_early

serves-Mirrors_example : Mirrors (serves day fresh)
serves-Mirrors_example =
    serves-Mirrors day 1 UserTier.plus [] 250 9 up fresh refl fresh_created refl

abbrev paid_row : Order
paid_row = record new_row { status = OrderStatus.slot_reserved; payment_ref = some 7; version = 2 }

pay_returns : (serve (by (pay 7) (some 1)) fresh).0 ≡ returned paid_row
unfolding serve check_idempotency handler initiate_payment transition can_transition
    valid_transitions has_guard_rule evaluate_guard
pay_returns = refl

serve-again_example :
    serve
      (by cancel (some 1))
      (serves (by queue none ∷ by prep (some 2) ∷ []) (serve (by (pay 7) (some 1)) fresh).1)
    ≡ (
      returned paid_row,
      serves (by queue none ∷ by prep (some 2) ∷ []) (serve (by (pay 7) (some 1)) fresh).1,
    )
serve-again_example =
    serve-again 1 (by (pay 7) (some 1)) (by cancel (some 1)) (by queue none ∷ by prep (some 2) ∷ [])
      fresh paid_row refl refl refl pay_returns

abbrev ready_row : Order
ready_row = record new_row { status = OrderStatus.ready }

-- The database fails between the two events of `mark_ready`: the answer is an error, and PREP_COMPLETED is out.
half_ready :
    let st = record fresh { order = some (record new_row { status = OrderStatus.in_prep }) } in
    let c = record (by ready none) { answers = record up { db_fails = at_second } } in
    ((serve c st).0 ≡ http 500)
    × ((serve c st).1
        ≡ record st { published = order_created ∷ payment_pending ∷ prep_completed ∷ [] })
unfolding serve check_idempotency handler mark_ready transition can_transition valid_transitions
    has_guard_rule evaluate_guard
half_ready = (refl, refl)
