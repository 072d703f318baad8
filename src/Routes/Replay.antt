-- ===== src/Routes/Replay.antt =====
-- The event log and the row of an order agree
-- (services/order-service/app/routes/orders.py).
use hot_sot.Base.{ℕ, ◌≡◌, Bool, true, Option, ◌==◌, arith, Bool-cases, inl, inr}
use hot_sot.Order.Status.{OrderStatus, same_status, valid_transitions}
use hot_sot.Order.Machine.{can_transition, transition, has_guard_rule, evaluate_guard}
use hot_sot.Order.Sequence.{same_status_iff}
use hot_sot.Shelf.Ttl.{Zone}
use hot_sot.Routes.Store.{Order, Answers, Request, Answer, done, fails, ShelfId, by_failure}
use hot_sot.Routes.Payment.{initiate_payment, confirm_payment_webhook}
use hot_sot.Routes.Preparation.{assign_queue, start_prep, mark_ready}
use hot_sot.Routes.Pickup.{assign_shelf, confirm_arrival, confirm_handoff}
use hot_sot.Routes.Closing.{expire_order, cancel_order}
use hot_sot.Routes.Service.{
  Route, pay, webhook, queue, prep, ready, shelf, arrival, handoff, expire, cancel, handler,
  open_request,
}
use hot_sot.Routes.Audit.{Trace}

-- What a request that ends well has persisted leads from the old state to the new one.
abbrev pub Moves : Order → Answer (Unit {0}) × Request → Type 0
Moves o (fails code, r) = Unit
Moves o (done u, r) = Trace o.status r.persisted r.order.status

same_eq : (n : ℕ) → (n == n) ≡ true
same_eq n = ground arith

pay-Moves : (o : Order) (ref : ℕ) (a : Answers) → Moves o (initiate_payment ref a (open_request o))
unfolding initiate_payment transition can_transition valid_transitions has_guard_rule evaluate_guard
pay-Moves o ref a =
    by_failure (λ x. Moves o (initiate_payment ref (record a { db_fails = x }) (open_request o)))
      (ground (arith, same_status_iff o.status OrderStatus.payment_pending))
      (ground (arith, same_status_iff o.status OrderStatus.payment_pending))
      (ground (arith, same_status_iff o.status OrderStatus.payment_pending))
      (ground (arith, same_status_iff o.status OrderStatus.payment_pending)) a.db_fails

webhook-Moves :
    (o : Order) (ref : ℕ) (a : Answers) → Moves o (confirm_payment_webhook ref a (open_request o))
unfolding confirm_payment_webhook transition can_transition valid_transitions has_guard_rule
    evaluate_guard
webhook-Moves o ref a = ground (arith, same_status_iff o.status OrderStatus.payment_pending)

queue-Moves : (o : Order) (a : Answers) → Moves o (assign_queue a (open_request o))
unfolding assign_queue transition can_transition valid_transitions has_guard_rule evaluate_guard
queue-Moves o a = ground (arith, same_status_iff o.status OrderStatus.slot_reserved)

prep-Moves : (o : Order) (a : Answers) → Moves o (start_prep a (open_request o))
unfolding start_prep transition can_transition valid_transitions has_guard_rule evaluate_guard
prep-Moves o a = ground (
  arith,
  same_status_iff o.status OrderStatus.queue_assigned,
  same_status_iff o.status OrderStatus.batch_wait,
)

ready-Moves : (o : Order) (a : Answers) → Moves o (mark_ready a (open_request o))
unfolding mark_ready transition can_transition valid_transitions has_guard_rule evaluate_guard
ready-Moves o a = ground (
  arith,
  same_status_iff o.status OrderStatus.in_prep,
  same_status_iff o.status OrderStatus.packing,
)

shelf-Moves :
    (o : Order) (shelf_id : Option ShelfId) (place : Option Zone) (a : Answers)
    → Moves o (assign_shelf shelf_id place a (open_request o))
unfolding assign_shelf transition can_transition valid_transitions has_guard_rule evaluate_guard
shelf-Moves o shelf_id place a = ground (arith, same_status_iff o.status OrderStatus.ready)

arrival-Moves :
    (o : Order) (qr : Bool) (a : Answers) → Moves o (confirm_arrival qr a (open_request o))
unfolding confirm_arrival transition can_transition valid_transitions has_guard_rule evaluate_guard
arrival-Moves o qr a = ground (arith, same_status_iff o.status OrderStatus.on_shelf)

handoff-Moves : (o : Order) (a : Answers) → Moves o (confirm_handoff a (open_request o))
unfolding confirm_handoff transition can_transition valid_transitions has_guard_rule evaluate_guard
handoff-Moves o a = ground (
  arith,
  same_status_iff o.status OrderStatus.arrived,
  same_status_iff o.status OrderStatus.handoff_in_progress,
)

expire-Moves : (o : Order) (a : Answers) → Moves o (expire_order a (open_request o))
unfolding expire_order transition can_transition valid_transitions has_guard_rule evaluate_guard
expire-Moves o a = elim (Bool-cases (same_status o.status OrderStatus.on_shelf)) [
  | inl h ↦ ground (arith, same_status_iff o.status OrderStatus.on_shelf)
  | inr h ↦ elim (Bool-cases (same_status o.status OrderStatus.arrived)) [
    | inl h' ↦ ground (arith, same_status_iff o.status OrderStatus.arrived)
    | inr h' ↦ ground (arith, same_status_iff o.status OrderStatus.handoff_in_progress)
  ]
]

cancel-Moves : (o : Order) (a : Answers) → Moves o (cancel_order a (open_request o))
unfolding cancel_order
cancel-Moves o a = ground (arith)

pub handler-Moves :
    (route : Route) (a : Answers) (o : Order) → Moves o (handler route a (open_request o))
unfolding handler
handler-Moves (pay payment_ref) a o = pay-Moves o payment_ref a
handler-Moves (webhook payment_ref) a o = webhook-Moves o payment_ref a
handler-Moves queue a o = queue-Moves o a
handler-Moves prep a o = prep-Moves o a
handler-Moves ready a o = ready-Moves o a
handler-Moves (shelf shelf_id place) a o = shelf-Moves o shelf_id place a
handler-Moves (arrival qr_scan) a o = arrival-Moves o qr_scan a
handler-Moves handoff a o = handoff-Moves o a
handler-Moves expire a o = expire-Moves o a
handler-Moves cancel a o = cancel-Moves o a
