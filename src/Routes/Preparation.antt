-- ===== src/Routes/Preparation.antt =====
-- `assign_queue`, `start_prep` and `mark_ready` of services/order-service/app/routes/orders.py.
use hot_sot.Base.{ℕ, ◌+◌, ◌*◌, ◌||◌, none, some, ltb, leb, if◌then◌else◌}
use hot_sot.Order.Status.{OrderStatus, same_status}
use hot_sot.Routes.Store.{
  UserTier, free, plus, pro, vip, QueueType, immediate, normal, batch, queue_assigned, prep_started,
  packing_started, prep_completed, ready_for_pickup, Answers, Handler, ◌>>=◌, ◌>>◌, row,
  set_order_status, skip, require, set_order, persist_event, publish_event, transit, no_context,
}

-- TIER_WEIGHTS
unfoldable pub tier_weight : UserTier → ℕ
tier_weight free = 1
tier_weight plus = 2
tier_weight pro = 3
tier_weight vip = 4

unfoldable pub priority_of : UserTier → ℕ
unfolding tier_weight
priority_of tier = 50 + tier_weight tier * 5

unfoldable pub queue_of : ℕ → QueueType
queue_of score = if ltb 80 score then immediate else if leb 60 score then normal else batch

unfoldable pub assign_queue : Answers → Handler (Unit {0})
unfolding priority_of queue_of
assign_queue a = do
  order ← row
  require (same_status order.status OrderStatus.slot_reserved) 409
  let score = priority_of order.user_tier
  transit OrderStatus.slot_reserved OrderStatus.queue_assigned
      (some (record no_context { priority_score = some score }))
  order' ← row
  set_order (record order' { queue_type = some (queue_of score); priority_score = some score })
  persist_event a queue_assigned
  set_order_status a
  publish_event queue_assigned

unfoldable pub start_prep : Answers → Handler (Unit {0})
start_prep a = do
  order ← row
  require
      (same_status order.status OrderStatus.queue_assigned
        || same_status order.status OrderStatus.batch_wait)
      409
  transit order.status OrderStatus.in_prep none
  order' ← row
  set_order (record order' { prep_started_at = some a.now })
  persist_event a prep_started
  set_order_status a
  publish_event prep_started

abbrev pack : Answers → Handler (Unit {0})
pack a = do
  transit OrderStatus.in_prep OrderStatus.packing none
  persist_event a packing_started
  publish_event prep_completed

abbrev finish_packing : Answers → Handler (Unit {0})
finish_packing a = do
  transit OrderStatus.packing OrderStatus.ready none
  order ← row
  set_order (record order { ready_at = some a.now })
  persist_event a ready_for_pickup

-- Neither test has an else: an order in any other state goes on to the publication.
unfoldable pub mark_ready : Answers → Handler (Unit {0})
mark_ready a = do
  order ← row
  (if same_status order.status OrderStatus.in_prep then pack a else skip)
  packed ← row
  (if same_status packed.status OrderStatus.packing then finish_packing a else skip)
  set_order_status a
  publish_event ready_for_pickup
