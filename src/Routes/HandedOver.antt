-- ===== src/Routes/HandedOver.antt =====
-- The handlers that do not hand an order over (services/order-service/app/routes/orders.py).
use hot_sot.Base.{ℕ, ◌≡◌, Bool, true, false, Option, arith}
use hot_sot.Order.Status.{OrderStatus, valid_transitions}
use hot_sot.Order.Machine.{can_transition, transition, has_guard_rule, evaluate_guard}
use hot_sot.Order.Sequence.{same_status_iff}
use hot_sot.Shelf.Ttl.{Zone}
use hot_sot.Routes.Store.{Order, Answers, Request, Answer, done, fails, ShelfId, by_failure}
use hot_sot.Routes.Payment.{initiate_payment, confirm_payment_webhook}
use hot_sot.Routes.Preparation.{assign_queue, start_prep, mark_ready}
use hot_sot.Routes.Pickup.{assign_shelf, confirm_arrival, confirm_handoff}
use hot_sot.Routes.Closing.{expire_order, cancel_order}
use hot_sot.Routes.Service.{
  Route, pay, webhook, queue, prep, ready, shelf, arrival, handoff, expire, cancel, handler,
  open_request,
}

-- How a handler that returns leaves the row.
abbrev pub Ends : (OrderStatus → Bool) → Answer (Unit {0}) × Request → Type 0
Ends p (fails code, r) = Unit
Ends p (done u, r) = p r.order.status ≡ true

abbrev pub not_handed_over : OrderStatus → Bool
not_handed_over OrderStatus.handoff_in_progress = false
not_handed_over OrderStatus.picked = false
not_handed_over _ = true

pay-not_handed_over :
    (payment_ref : ℕ) (a : Answers) (o : Order)
    → not_handed_over o.status ≡ true
    → Ends not_handed_over (initiate_payment payment_ref a (open_request o))
unfolding initiate_payment transition can_transition valid_transitions has_guard_rule evaluate_guard
pay-not_handed_over payment_ref a o h =
    by_failure
      (λ x.
        Ends not_handed_over
          (initiate_payment payment_ref (record a { db_fails = x }) (open_request o)))
      (ground arith) (ground arith) (ground arith) (ground arith) a.db_fails

webhook-not_handed_over :
    (payment_ref : ℕ) (a : Answers) (o : Order)
    → not_handed_over o.status ≡ true
    → Ends not_handed_over (confirm_payment_webhook payment_ref a (open_request o))
unfolding confirm_payment_webhook transition can_transition valid_transitions has_guard_rule
    evaluate_guard
webhook-not_handed_over payment_ref a o h = ground arith

queue-not_handed_over :
    (a : Answers) (o : Order)
    → not_handed_over o.status ≡ true
    → Ends not_handed_over (assign_queue a (open_request o))
unfolding assign_queue transition can_transition valid_transitions has_guard_rule evaluate_guard
queue-not_handed_over a o h = ground arith

prep-not_handed_over :
    (a : Answers) (o : Order)
    → not_handed_over o.status ≡ true
    → Ends not_handed_over (start_prep a (open_request o))
unfolding start_prep transition can_transition valid_transitions has_guard_rule evaluate_guard
prep-not_handed_over a o h =
    by_failure (λ x. Ends not_handed_over (start_prep (record a { db_fails = x }) (open_request o)))
      (ground arith) (ground arith) (ground arith) (ground arith) a.db_fails

ready-not_handed_over :
    (a : Answers) (o : Order)
    → not_handed_over o.status ≡ true
    → Ends not_handed_over (mark_ready a (open_request o))
unfolding mark_ready transition can_transition valid_transitions has_guard_rule evaluate_guard
ready-not_handed_over a o h =
    by_failure (λ x. Ends not_handed_over (mark_ready (record a { db_fails = x }) (open_request o)))
      (ground arith) (ground arith) (ground arith) (ground arith) a.db_fails

shelf-not_handed_over :
    (shelf_id : Option ShelfId) (place : Option Zone) (a : Answers) (o : Order)
    → not_handed_over o.status ≡ true
    → Ends not_handed_over (assign_shelf shelf_id place a (open_request o))
unfolding assign_shelf transition can_transition valid_transitions has_guard_rule evaluate_guard
shelf-not_handed_over shelf_id place a o h =
    by_failure
      (λ x.
        Ends not_handed_over
          (assign_shelf shelf_id place (record a { db_fails = x }) (open_request o)))
      (ground arith) (ground arith) (ground arith) (ground arith) a.db_fails

arrival-not_handed_over :
    (qr_scan : Bool) (a : Answers) (o : Order)
    → not_handed_over o.status ≡ true
    → Ends not_handed_over (confirm_arrival qr_scan a (open_request o))
unfolding confirm_arrival transition can_transition valid_transitions has_guard_rule evaluate_guard
arrival-not_handed_over qr_scan a o h = ground arith

handoff-not_handed_over :
    (a : Answers) (o : Order)
    → not_handed_over o.status ≡ true
    → Ends not_handed_over (confirm_handoff a (open_request o))
unfolding confirm_handoff transition can_transition valid_transitions has_guard_rule evaluate_guard
handoff-not_handed_over a o h =
    ground (arith, same_status_iff o.status OrderStatus.handoff_in_progress)

expire-not_handed_over :
    (a : Answers) (o : Order)
    → not_handed_over o.status ≡ true
    → Ends not_handed_over (expire_order a (open_request o))
unfolding expire_order transition can_transition valid_transitions has_guard_rule evaluate_guard
expire-not_handed_over a o h = ground arith

cancel-not_handed_over :
    (a : Answers) (o : Order)
    → not_handed_over o.status ≡ true
    → Ends not_handed_over (cancel_order a (open_request o))
unfolding cancel_order transition can_transition valid_transitions has_guard_rule evaluate_guard
cancel-not_handed_over a o h = ground arith

pub not_handed_over-kept :
    (route : Route) (a : Answers) (o : Order)
    → not_handed_over o.status ≡ true
    → Ends not_handed_over (handler route a (open_request o))
unfolding handler
not_handed_over-kept (pay payment_ref) a o h = pay-not_handed_over payment_ref a o h
not_handed_over-kept (webhook payment_ref) a o h = webhook-not_handed_over payment_ref a o h
not_handed_over-kept queue a o h = queue-not_handed_over a o h
not_handed_over-kept prep a o h = prep-not_handed_over a o h
not_handed_over-kept ready a o h = ready-not_handed_over a o h
not_handed_over-kept (shelf shelf_id place) a o h = shelf-not_handed_over shelf_id place a o h
not_handed_over-kept (arrival qr_scan) a o h = arrival-not_handed_over qr_scan a o h
not_handed_over-kept handoff a o h = handoff-not_handed_over a o h
not_handed_over-kept expire a o h = expire-not_handed_over a o h
not_handed_over-kept cancel a o h = cancel-not_handed_over a o h
