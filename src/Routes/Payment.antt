-- ===== src/Routes/Payment.antt =====
-- `create_order`, `initiate_payment` and `confirm_payment_webhook` of
-- services/order-service/app/routes/orders.py.
use hot_sot.Base.{ℕ, not, true, false, none, some, List, ltb, if◌then◌else◌}
use hot_sot.Order.Status.{OrderStatus, same_status}
use hot_sot.Order.Machine.{get_or}
use hot_sot.Routes.Store.{
  UserTier, Item, Order, order_created, payment_pending, payment_confirmed, slot_reserved,
  slot_conflict, Answers, Handler, ◌>>=◌, ◌>>◌, row, set_order_status, require, set_order,
  persist_event, publish_event, transit, bump_version, no_context, Request, Answer, done, fails,
}

abbrev max_kitchen_orders : ℕ
max_kitchen_orders = 200

-- `load_data.get("active_orders", 0) if load_data else 0`, and 0 without Redis.
abbrev load_of : Answers → ℕ
load_of a = if a.has_redis then get_or a.kitchen_load 0 else 0

-- The new row of `create_order`.
abbrev pub new_order : ℕ → UserTier → List Item → ℕ → Order
new_order tenant_id user_tier items total_amount = record {
  tenant_id = tenant_id;
  status = OrderStatus.created;
  version = 1;
  user_tier = user_tier;
  items = items;
  total_amount = total_amount;
  payment_ref = none;
  queue_type = none;
  priority_score = none;
  shelf_id = none;
  shelf_zone = none;
  shelf_ttl_remaining = none;
  prep_started_at = none;
  ready_at = none;
  arrived_at = none;
  picked_at = none;
}

-- `compliance_check("FSSAI")`, which blocks a vendor whose status is FAILED.
abbrev compliance_check : Answers → Handler (Unit {0})
compliance_check a = require (not a.fssai_failed) 403

-- `create_order` on its new row: the compliance gate, and the body from the check of the capacity on.
unfoldable pub create_order : Answers → Handler (Unit {0})
create_order a = do
  compliance_check a
  require (ltb (load_of a) max_kitchen_orders) 429
  persist_event a order_created
  transit OrderStatus.created OrderStatus.payment_pending none
  persist_event a payment_pending
  set_order_status a
  publish_event order_created
  publish_event payment_pending

-- The transition to SLOT_RESERVED, where a failure persists SLOT_CONFLICT before the 409.
abbrev reserve_slot : ℕ → Handler (Unit {0})
reserve_slot load = transit OrderStatus.payment_confirmed OrderStatus.slot_reserved (
    some (record no_context {
      slot_available = some (ltb load max_kitchen_orders);
      waitlist_allowed = some true;
    }))

abbrev or_conflict : Answers → Answer (Unit {0}) × Request → Answer (Unit {0}) × Request
or_conflict a (done u, r) = (done u, r)
or_conflict a (fails code, r) = (persist_event a slot_conflict >> require false 409) r

unfoldable pub initiate_payment : ℕ → Answers → Handler (Unit {0})
initiate_payment payment_ref a = do
  order ← row
  require (same_status order.status OrderStatus.payment_pending) 409
  transit OrderStatus.payment_pending OrderStatus.payment_confirmed none
  order' ← row
  set_order (record order' { payment_ref = some payment_ref })
  bump_version order.version
  persist_event a payment_confirmed
  (λ r. or_conflict a (reserve_slot (load_of a) r))
  persist_event a slot_reserved
  set_order_status a
  publish_event payment_confirmed
  publish_event slot_reserved

unfoldable pub confirm_payment_webhook : ℕ → Answers → Handler (Unit {0})
confirm_payment_webhook payment_ref a = do
  order ← row
  require (same_status order.status OrderStatus.payment_pending) 409
  transit OrderStatus.payment_pending OrderStatus.payment_confirmed none
  order' ← row
  set_order (record order' { payment_ref = some payment_ref })
  persist_event a payment_confirmed
  set_order_status a
  publish_event payment_confirmed
