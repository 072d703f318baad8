-- ===== src/Routes/Sends.antt =====
-- What each handler has sent to Kafka and Redis when it ends
-- (services/order-service/app/routes/orders.py).
use hot_sot.Base.{ℕ, ◌≡◌, Bool, true, false, not, ◌&&◌, Option, none, some, [], ◌==◌, arith}
use hot_sot.Order.Status.{OrderStatus, valid_transitions}
use hot_sot.Order.Machine.{can_transition, transition, has_guard_rule, evaluate_guard}
use hot_sot.Shelf.Ttl.{Zone}
use hot_sot.Routes.Store.{Order, Answers, Request, Answer, done, fails, ShelfId, by_failure}
use hot_sot.Routes.Payment.{initiate_payment, confirm_payment_webhook}
use hot_sot.Routes.Preparation.{assign_queue, start_prep, mark_ready}
use hot_sot.Routes.Pickup.{assign_shelf, confirm_arrival, confirm_handoff}
use hot_sot.Routes.Closing.{expire_order, cancel_order}
use hot_sot.Routes.Service.{
  Route, pay, webhook, queue, prep, ready, shelf, arrival, handoff, expire, cancel, handler,
  open_request, has_failed,
}

-- The state in a copy.
abbrev pub copied : Option (OrderStatus × ℕ) → Option OrderStatus
copied none = none
copied (some (s, until)) = some s

-- A handler that fails, but by the database, has published nothing and copied no state; one that ends well,
-- where Redis is there and takes the write, has copied the state of its row.
abbrev pub Sends : Answers → Answer (Unit {0}) × Request → Type 0
Sends a (fails code, r) = (code == 500) ≡ false → (r.published ≡ []) × (r.cached_status ≡ none)
Sends a (done u, r) =
    (a.has_redis && a.writes) ≡ true → copied r.cached_status ≡ some r.order.status

pay-Sends :
    (payment_ref : ℕ) (a : Answers) (o : Order)
    → Sends a (initiate_payment payment_ref a (open_request o))
unfolding initiate_payment transition can_transition valid_transitions has_guard_rule evaluate_guard
pay-Sends payment_ref a o =
    by_failure
      (λ x.
        Sends (record a { db_fails = x })
          (initiate_payment payment_ref (record a { db_fails = x }) (open_request o)))
      (ground arith) (ground arith) (ground arith) (ground arith) a.db_fails

webhook-Sends :
    (payment_ref : ℕ) (a : Answers) (o : Order)
    → Sends a (confirm_payment_webhook payment_ref a (open_request o))
unfolding confirm_payment_webhook transition can_transition valid_transitions has_guard_rule
    evaluate_guard
webhook-Sends payment_ref a o = ground arith

queue-Sends : (a : Answers) (o : Order) → Sends a (assign_queue a (open_request o))
unfolding assign_queue transition can_transition valid_transitions has_guard_rule evaluate_guard
queue-Sends a o = ground arith

prep-Sends : (a : Answers) (o : Order) → Sends a (start_prep a (open_request o))
unfolding start_prep transition can_transition valid_transitions has_guard_rule evaluate_guard
prep-Sends a o =
    by_failure
      (λ x.
        Sends (record a { db_fails = x }) (start_prep (record a { db_fails = x }) (open_request o)))
      (ground arith) (ground arith) (ground arith) (ground arith) a.db_fails

ready-Sends : (a : Answers) (o : Order) → Sends a (mark_ready a (open_request o))
unfolding mark_ready transition can_transition valid_transitions has_guard_rule evaluate_guard
ready-Sends a o =
    by_failure
      (λ x.
        Sends (record a { db_fails = x }) (mark_ready (record a { db_fails = x }) (open_request o)))
      (ground arith) (ground arith) (ground arith) (ground arith) a.db_fails

shelf-Sends :
    (shelf_id : Option ShelfId) (place : Option Zone) (a : Answers) (o : Order)
    → Sends a (assign_shelf shelf_id place a (open_request o))
unfolding assign_shelf transition can_transition valid_transitions has_guard_rule evaluate_guard
shelf-Sends shelf_id place a o =
    by_failure
      (λ x.
        Sends (record a { db_fails = x })
          (assign_shelf shelf_id place (record a { db_fails = x }) (open_request o)))
      (ground arith) (ground arith) (ground arith) (ground arith) a.db_fails

arrival-Sends :
    (qr_scan : Bool) (a : Answers) (o : Order)
    → Sends a (confirm_arrival qr_scan a (open_request o))
unfolding confirm_arrival transition can_transition valid_transitions has_guard_rule evaluate_guard
arrival-Sends qr_scan a o = ground arith

handoff-Sends : (a : Answers) (o : Order) → Sends a (confirm_handoff a (open_request o))
unfolding confirm_handoff transition can_transition valid_transitions has_guard_rule evaluate_guard
handoff-Sends a o = ground arith

expire-Sends : (a : Answers) (o : Order) → Sends a (expire_order a (open_request o))
unfolding expire_order transition can_transition valid_transitions has_guard_rule evaluate_guard
expire-Sends a o = ground arith

cancel-Sends : (a : Answers) (o : Order) → Sends a (cancel_order a (open_request o))
unfolding cancel_order transition can_transition valid_transitions has_guard_rule evaluate_guard
cancel-Sends a o = ground arith

pub handler-Sends :
    (route : Route) (a : Answers) (o : Order) → Sends a (handler route a (open_request o))
unfolding handler
handler-Sends (pay payment_ref) a o = pay-Sends payment_ref a o
handler-Sends (webhook payment_ref) a o = webhook-Sends payment_ref a o
handler-Sends queue a o = queue-Sends a o
handler-Sends prep a o = prep-Sends a o
handler-Sends ready a o = ready-Sends a o
handler-Sends (shelf shelf_id place) a o = shelf-Sends shelf_id place a o
handler-Sends (arrival qr_scan) a o = arrival-Sends qr_scan a o
handler-Sends handoff a o = handoff-Sends a o
handler-Sends expire a o = expire-Sends a o
handler-Sends cancel a o = cancel-Sends a o

-- Where the database takes what it is given, no handler ends with a 500.
abbrev pub NoFive : Answer (Unit {0}) × Request → Type 0
NoFive (fails code, r) = (code == 500) ≡ false
NoFive (done u, r) = Unit

pay-NoFive :
    (payment_ref : ℕ) (a : Answers) (o : Order)
    → not (has_failed a.db_fails) ≡ true
    → NoFive (initiate_payment payment_ref a (open_request o))
unfolding initiate_payment transition can_transition valid_transitions has_guard_rule evaluate_guard
pay-NoFive payment_ref a o h =
    by_failure
      (λ x.
        not (has_failed x) ≡ true
        → NoFive (initiate_payment payment_ref (record a { db_fails = x }) (open_request o)))
      (λ h. ground arith) (λ h. absurd cc) (λ h. absurd cc) (λ h. absurd cc) a.db_fails h

webhook-NoFive :
    (payment_ref : ℕ) (a : Answers) (o : Order)
    → not (has_failed a.db_fails) ≡ true
    → NoFive (confirm_payment_webhook payment_ref a (open_request o))
unfolding confirm_payment_webhook transition can_transition valid_transitions has_guard_rule
    evaluate_guard
webhook-NoFive payment_ref a o h = ground arith

queue-NoFive :
    (a : Answers) (o : Order)
    → not (has_failed a.db_fails) ≡ true
    → NoFive (assign_queue a (open_request o))
unfolding assign_queue transition can_transition valid_transitions has_guard_rule evaluate_guard
queue-NoFive a o h = ground arith

prep-NoFive :
    (a : Answers) (o : Order)
    → not (has_failed a.db_fails) ≡ true
    → NoFive (start_prep a (open_request o))
unfolding start_prep transition can_transition valid_transitions has_guard_rule evaluate_guard
prep-NoFive a o h = ground arith

ready-NoFive :
    (a : Answers) (o : Order)
    → not (has_failed a.db_fails) ≡ true
    → NoFive (mark_ready a (open_request o))
unfolding mark_ready transition can_transition valid_transitions has_guard_rule evaluate_guard
ready-NoFive a o h = ground arith

shelf-NoFive :
    (shelf_id : Option ShelfId) (place : Option Zone) (a : Answers) (o : Order)
    → not (has_failed a.db_fails) ≡ true
    → NoFive (assign_shelf shelf_id place a (open_request o))
unfolding assign_shelf transition can_transition valid_transitions has_guard_rule evaluate_guard
shelf-NoFive shelf_id place a o h = ground arith

arrival-NoFive :
    (qr_scan : Bool) (a : Answers) (o : Order)
    → not (has_failed a.db_fails) ≡ true
    → NoFive (confirm_arrival qr_scan a (open_request o))
unfolding confirm_arrival transition can_transition valid_transitions has_guard_rule evaluate_guard
arrival-NoFive qr_scan a o h = ground arith

handoff-NoFive :
    (a : Answers) (o : Order)
    → not (has_failed a.db_fails) ≡ true
    → NoFive (confirm_handoff a (open_request o))
unfolding confirm_handoff transition can_transition valid_transitions has_guard_rule evaluate_guard
handoff-NoFive a o h = ground arith

expire-NoFive :
    (a : Answers) (o : Order)
    → not (has_failed a.db_fails) ≡ true
    → NoFive (expire_order a (open_request o))
unfolding expire_order transition can_transition valid_transitions has_guard_rule evaluate_guard
expire-NoFive a o h = ground arith

cancel-NoFive :
    (a : Answers) (o : Order)
    → not (has_failed a.db_fails) ≡ true
    → NoFive (cancel_order a (open_request o))
unfolding cancel_order transition can_transition valid_transitions has_guard_rule evaluate_guard
cancel-NoFive a o h = ground arith

pub handler-NoFive :
    (route : Route) (a : Answers) (o : Order)
    → not (has_failed a.db_fails) ≡ true
    → NoFive (handler route a (open_request o))
unfolding handler
handler-NoFive (pay payment_ref) a o h = pay-NoFive payment_ref a o h
handler-NoFive (webhook payment_ref) a o h = webhook-NoFive payment_ref a o h
handler-NoFive queue a o h = queue-NoFive a o h
handler-NoFive prep a o h = prep-NoFive a o h
handler-NoFive ready a o h = ready-NoFive a o h
handler-NoFive (shelf shelf_id place) a o h = shelf-NoFive shelf_id place a o h
handler-NoFive (arrival qr_scan) a o h = arrival-NoFive qr_scan a o h
handler-NoFive handoff a o h = handoff-NoFive a o h
handler-NoFive expire a o h = expire-NoFive a o h
handler-NoFive cancel a o h = cancel-NoFive a o h
