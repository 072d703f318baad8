-- ===== src/Routes/Stuck.antt =====
-- States that the routes never leave, or never reach (services/order-service/app/routes/orders.py).
use hot_sot.Base.{
  ℕ, ◌≡◌, Bool, true, false, Option, none, some, List, subst, ◌==◌, if◌then◌else◌, arith,
}
use hot_sot.Order.Status.{OrderStatus, valid_transitions}
use hot_sot.Order.Machine.{can_transition, transition, has_guard_rule, evaluate_guard}
use hot_sot.Routes.Store.{
  UserTier, Item, Order, Answers, Request, Answer, done, fails, Failure, never, at_first, at_second,
  at_commit,
}
use hot_sot.Routes.Payment.{create_order, initiate_payment, confirm_payment_webhook}
use hot_sot.Routes.Preparation.{assign_queue, start_prep, mark_ready}
use hot_sot.Routes.Pickup.{assign_shelf, confirm_arrival, confirm_handoff}
use hot_sot.Routes.Closing.{expire_order, cancel_order}
use hot_sot.Routes.Service.{
  Route, pay, webhook, queue, prep, ready, shelf, arrival, handoff, expire, cancel, handler, Store,
  Call, open_request, commit, committed, serve, serves, create, run_on, Response, returned, http,
  check_idempotency,
}
use hot_sot.Routes.HandedOver.{Ends, not_handed_over, not_handed_over-kept}
use hot_sot.Routes.Induction.{committed-keeps, any_call, every-any_call, serves-keeps}

abbrev RowStatus : (OrderStatus → Bool) → Option Order → Type 0
RowStatus p none = Unit
RowStatus p (some o) = p o.status ≡ true

-- The row of the order, if it is there, is in a state with a property.
abbrev pub StatusIs : (OrderStatus → Bool) → Store → Type 0
StatusIs p st = RowStatus p st.order

commit-StatusIs :
    (p : OrderStatus → Bool) (c : Call) (st : Store) (x : Answer (Unit {0}) × Request)
    → StatusIs p st
    → Ends p x
    → StatusIs p (commit c st x).1
commit-StatusIs p c st (fails code, r) i e = i
commit-StatusIs p c st (done u, r) i e = committed-keeps (StatusIs p) c st r c.answers.db_fails e i

-- A property of states that every handler keeps, the calls keep.
serves-StatusIs :
    (p : OrderStatus → Bool)
    (kept : (route : Route) (a : Answers) (o : Order)
      → p o.status ≡ true
      → Ends p (handler route a (open_request o)))
    (cs : List Call) (st : Store)
    → StatusIs p st
    → StatusIs p (serves cs st)
serves-StatusIs p kept cs st i =
    serves-keeps (StatusIs p) any_call
      (λ c st o g e i.
        commit-StatusIs p c st (handler c.route c.answers (open_request o)) i
          (kept c.route c.answers o (subst (RowStatus p) e i)))
      cs st (every-any_call cs) i

abbrev pub paid_or_cancelled : OrderStatus → Bool
paid_or_cancelled OrderStatus.payment_confirmed = true
paid_or_cancelled OrderStatus.cancelled = true
paid_or_cancelled _ = false

paid_or_cancelled-kept :
    (route : Route) (a : Answers) (o : Order)
    → paid_or_cancelled o.status ≡ true
    → Ends paid_or_cancelled (handler route a (open_request o))
unfolding handler initiate_payment confirm_payment_webhook assign_queue start_prep mark_ready
    assign_shelf confirm_arrival confirm_handoff expire_order cancel_order transition can_transition
    valid_transitions has_guard_rule evaluate_guard
paid_or_cancelled-kept (pay payment_ref) a o h = ground arith
paid_or_cancelled-kept (webhook payment_ref) a o h = ground arith
paid_or_cancelled-kept queue a o h = ground arith
paid_or_cancelled-kept prep a o h = ground arith
paid_or_cancelled-kept ready a o h = ground arith
paid_or_cancelled-kept (shelf shelf_id place) a o h = ground arith
paid_or_cancelled-kept (arrival qr_scan) a o h = ground arith
paid_or_cancelled-kept handoff a o h = ground arith
paid_or_cancelled-kept expire a o h = ground arith
paid_or_cancelled-kept cancel a o h = ground arith

create-not_handed_over :
    (tenant : ℕ) (tier : UserTier) (items : List Item) (total key : ℕ) (a : Answers) (st : Store)
    → create tenant tier items total key a ≡ some st
    → StatusIs not_handed_over st
unfolding create create_order transition can_transition valid_transitions has_guard_rule
    evaluate_guard
create-not_handed_over tenant tier items total key a st e = ground arith

-- No sequence of calls hands over the order that `create_order` made: its row is never in
-- HANDOFF_IN_PROGRESS or PICKED.
pub serves-not_handed_over :
    (cs : List Call) (tenant : ℕ) (tier : UserTier) (items : List Item) (total key : ℕ)
    (a : Answers) (st : Store)
    → create tenant tier items total key a ≡ some st
    → StatusIs not_handed_over (serves cs st)
serves-not_handed_over cs tenant tier items total key a st e =
    serves-StatusIs not_handed_over not_handed_over-kept cs st
      (create-not_handed_over tenant tier items total key a st e)

-- The call of `confirm_payment_webhook` by a tenant, without an idempotency key.
abbrev pub webhook_call : ℕ → ℕ → Answers → Call
webhook_call tenant ref a = record { route = webhook ref; tenant = tenant; key = none; answers = a }

webhook-Ends :
    (ref : ℕ) (a : Answers) (o : Order)
    → Ends paid_or_cancelled (confirm_payment_webhook ref a (open_request o))
unfolding confirm_payment_webhook transition can_transition valid_transitions has_guard_rule
    evaluate_guard
webhook-Ends ref a o = ground arith

committed-returned :
    (p : OrderStatus → Bool) (c : Call) (st : Store) (r : Request) (x : Failure) (o : Order)
    → p r.order.status ≡ true
    → (committed x c st r).0 ≡ returned o
    → StatusIs p (committed x c st r).1
committed-returned p c st r never o h e = h
committed-returned p c st r at_first o h e = cc
committed-returned p c st r at_second o h e = cc
committed-returned p c st r at_commit o h e = cc

commit-returned :
    (p : OrderStatus → Bool) (c : Call) (st : Store) (x : Answer (Unit {0}) × Request) (o : Order)
    → Ends p x
    → (commit c st x).0 ≡ returned o
    → StatusIs p (commit c st x).1
commit-returned p c st (fails code, r) o h e = cc
commit-returned p c st (done u, r) o h e = committed-returned p c st r c.answers.db_fails o h e

either-returned :
    (p : OrderStatus → Bool) (b : Bool) (x : Response × Store) (st : Store) (o : Order)
    → (x.0 ≡ returned o → StatusIs p x.1)
    → (if b then x else (http 404, st)).0 ≡ returned o
    → StatusIs p (if b then x else (http 404, st)).1
either-returned p true x st o h e = h e
either-returned p false x st o h e = cc

webhook-returned :
    (tenant ref : ℕ) (a : Answers) (st : Store) (x : Option Order) (o : Order)
    → (run_on (webhook_call tenant ref a) st x).0 ≡ returned o
    → StatusIs paid_or_cancelled (run_on (webhook_call tenant ref a) st x).1
unfolding handler
webhook-returned tenant ref a st none o e = cc
webhook-returned tenant ref a st (some row) o e =
    let c = webhook_call tenant ref a in
    let y = confirm_payment_webhook ref a (open_request row) in
    either-returned paid_or_cancelled (row.tenant_id == tenant) (commit c st y) st o
      (commit-returned paid_or_cancelled c st y o (webhook-Ends ref a row)) e

-- Once `confirm_payment_webhook`, called without an idempotency key, has answered with the order, the order
-- stays in PAYMENT_CONFIRMED whatever calls follow, or is cancelled: no route reserves its slot.
pub serves-paid_or_cancelled :
    (cs : List Call) (tenant ref : ℕ) (a : Answers) (st : Store) (o : Order)
    → (serve (webhook_call tenant ref a) st).0 ≡ returned o
    → StatusIs paid_or_cancelled (serves cs (serve (webhook_call tenant ref a) st).1)
unfolding serve check_idempotency
serves-paid_or_cancelled cs tenant ref a st o e =
    serves-StatusIs paid_or_cancelled paid_or_cancelled-kept cs
      (run_on (webhook_call tenant ref a) st st.order).1
      (webhook-returned tenant ref a st st.order o e)
