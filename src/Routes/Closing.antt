-- ===== src/Routes/Closing.antt =====
-- `expire_order` and `cancel_order` of services/order-service/app/routes/orders.py.
use hot_sot.Base.{true, ◌||◌, some, List, [], ◌∷◌, if◌then◌else◌}
use hot_sot.Order.Status.{OrderStatus, same_status, contains}
use hot_sot.Order.Machine.{can_transition, is_cancellable}
use hot_sot.Order.Tables.{default}
use hot_sot.Routes.Store.{
  order_expired, order_cancelled, compensation_triggered, Answers, Handler, ◌>>=◌, ◌>>◌, row,
  set_order_status, skip, require, set_order, persist_event, publish_event, transit, no_context,
}
use hot_sot.Routes.Pickup.{release_shelf}

unfoldable pub expire_order : Answers → Handler (Unit {0})
expire_order a = do
  order ← row
  require
      (same_status order.status OrderStatus.on_shelf
        || same_status order.status OrderStatus.arrived
        || same_status order.status OrderStatus.handoff_in_progress)
      409
  transit order.status OrderStatus.expired (
      some
        (record no_context { current_state = some order.status; shelf_ttl_exceeded = some true }))
  persist_event a order_expired
  release_shelf a order.tenant_id order.shelf_id
  set_order_status a
  publish_event order_expired
  publish_event compensation_triggered

-- The states in which the payment was confirmed, by the list of `cancel_order`.
unfoldable paid_states : List OrderStatus
paid_states =
    OrderStatus.payment_confirmed ∷ OrderStatus.slot_reserved ∷ OrderStatus.queue_assigned
    ∷ OrderStatus.in_prep ∷ OrderStatus.batch_wait ∷ OrderStatus.packing ∷ OrderStatus.ready
    ∷ OrderStatus.on_shelf ∷ []

unfoldable pub cancel_order : Answers → Handler (Unit {0})
unfolding paid_states
cancel_order a = do
  order ← row
  require (is_cancellable order.status) 409
  require (can_transition default order.status OrderStatus.cancelled) 409
  set_order (record order { status = OrderStatus.cancelled })
  persist_event a order_cancelled
  release_shelf a order.tenant_id order.shelf_id
  set_order_status a
  publish_event order_cancelled
  (if contains paid_states order.status then publish_event compensation_triggered else skip)
