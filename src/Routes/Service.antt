-- ===== src/Routes/Service.antt =====
-- The routes of services/order-service/app/routes/orders.py on one order: the idempotency check, the
-- lookup by tenant, the handler in its transaction, and the stored response.
use hot_sot.Base.{
  ℕ, Bool, true, false, ◌&&◌, Option, none, some, List, [], ◌∷◌, ◌++◌, ◌==◌, if◌then◌else◌,
}
use hot_sot.Order.Status.{OrderStatus}
use hot_sot.Shelf.Ttl.{Zone}
use hot_sot.Routes.Store.{
  UserTier, Item, ShelfId, Order, EventType, LockCall, Failure, never, Answers, Request, Answer,
  done, fails, Handler,
}
use hot_sot.Routes.Payment.{new_order, create_order, initiate_payment, confirm_payment_webhook}
use hot_sot.Routes.Preparation.{assign_queue, start_prep, mark_ready}
use hot_sot.Routes.Pickup.{assign_shelf, confirm_arrival, confirm_handoff}
use hot_sot.Routes.Closing.{expire_order, cancel_order}

-- The routes that change an order, with what they take from the request.
pub data Route : Type 0 where
  pay webhook : ℕ → Route
  queue prep ready : Route
  shelf : Option ShelfId → Option Zone → Route
  arrival : Bool → Route
  handoff expire cancel : Route

unfoldable pub handler : Route → Answers → Handler (Unit {0})
handler (pay payment_ref) a = initiate_payment payment_ref a
handler (webhook payment_ref) a = confirm_payment_webhook payment_ref a
handler queue a = assign_queue a
handler prep a = start_prep a
handler ready a = mark_ready a
handler (shelf shelf_id zone) a = assign_shelf shelf_id zone a
handler (arrival qr_scan) a = confirm_arrival qr_scan a
handler handoff a = confirm_handoff a
handler expire a = expire_order a
handler cancel a = cancel_order a

-- The database of one order, the idempotency cache, and what has been sent so far.
pub record Store : Type 0 where
  pub order : Option Order
  pub events : List EventType
  pub cache : List (ℕ × Order)
  pub published : List EventType
  pub locks : List LockCall
  pub cached_status : Option (OrderStatus × ℕ)

-- A call: its route, the tenant of the user, the idempotency key, and what Redis answers.
pub record Call : Type 0 where
  pub route : Route
  pub tenant : ℕ
  pub key : Option ℕ
  pub answers : Answers

-- The body of a response, `format_order`, or the status code of an HTTPException.
pub data Response : Type 0 where
  returned : Order → Response
  http : ℕ → Response

abbrev pub find : ℕ → List (ℕ × Order) → Option Order
find k [] = none
find k ((j, o) ∷ rest) = if k == j then some o else find k rest

-- `check_idempotency`; `expire_order` does without.
unfoldable pub check_idempotency : Call → List (ℕ × Order) → Option Order
check_idempotency c cache = elim c.key [
  | none ↦ none
  | some k ↦ if c.answers.has_redis && c.answers.reads then find k cache else none
]

abbrev pub is_expire : Route → Bool
is_expire expire = true
is_expire _ = false

unfoldable pub store_idempotency : Call → Order → List (ℕ × Order) → List (ℕ × Order)
store_idempotency c response cache = elim c.key [
  | none ↦ cache
  | some k ↦ if c.answers.has_redis && c.answers.writes then (k, response) ∷ cache else cache
]

abbrev pub open_request : Order → Request
open_request o = record {
  order = o;
  persisted = [];
  published = [];
  locks = [];
  cached_status = none;
}

abbrev pub newer : Option (OrderStatus × ℕ) → Option (OrderStatus × ℕ) → Option (OrderStatus × ℕ)
newer none old = old
newer (some s) old = some s

abbrev pub stored : Call → Store → Order → List (ℕ × Order)
stored c st response = if is_expire c.route then st.cache else store_idempotency c response st.cache

-- The end of `get_db` after a handler that returned: a commit, or its failure, which takes back the row and the
-- log and nothing else.
abbrev pub committed : Failure → Call → Store → Request → Response × Store
committed never c st r = (
  returned r.order,
  record {
    order = some r.order;
    events = st.events ++ r.persisted;
    cache = stored c st r.order;
    published = st.published ++ r.published;
    locks = st.locks ++ r.locks;
    cached_status = newer r.cached_status st.cached_status;
  },
)
committed _ c st r = (
  http 500,
  record st {
    cache = stored c st r.order;
    published = st.published ++ r.published;
    locks = st.locks ++ r.locks;
    cached_status = newer r.cached_status st.cached_status;
  },
)

-- The end of `get_db`: a commit, or a rollback that keeps what was sent.
abbrev pub commit : Call → Store → Answer (Unit {0}) × Request → Response × Store
commit c st (fails code, r) = (
  http code,
  record st {
    published = st.published ++ r.published;
    locks = st.locks ++ r.locks;
    cached_status = newer r.cached_status st.cached_status;
  },
)
commit c st (done u, r) = committed c.answers.db_fails c st r

abbrev pub run_on : Call → Store → Option Order → Response × Store
run_on c st none = (http 404, st)
run_on c st (some o) =
    if o.tenant_id == c.tenant
    then commit c st (handler c.route c.answers (open_request o))
    else (http 404, st)

abbrev pub after_check : Call → Store → Option Order → Response × Store
after_check c st (some response) = (returned response, st)
after_check c st none = run_on c st st.order

unfoldable pub serve : Call → Store → Response × Store
serve c st = after_check c st (if is_expire c.route then none else check_idempotency c st.cache)

unfoldable pub serves : List Call → Store → Store
serves [] st = st
serves (c ∷ cs) st = serves cs (serve c st).1

abbrev pub has_failed : Failure → Bool
has_failed never = false
has_failed _ = true

abbrev created_by : ℕ → Answers → Answer (Unit {0}) × Request → Option Store
created_by key a (fails code, r) = none
created_by key a (done u, r) =
    if has_failed a.db_fails
    then none
    else some (record {
      order = some r.order;
      events = r.persisted;
      cache = if a.has_redis && a.writes then (key, r.order) ∷ [] else [];
      published = r.published;
      locks = r.locks;
      cached_status = r.cached_status;
    })

-- The store after `create_order`, if it does not fail, under the key of the request or the computed one,
-- which is new.
unfoldable pub create : ℕ → UserTier → List Item → ℕ → ℕ → Answers → Option Store
create tenant tier items total key a =
    created_by key a (create_order a (open_request (new_order tenant tier items total)))

abbrev visible : ℕ → Option Order → Bool
visible tenant none = false
visible tenant (some o) = o.tenant_id == tenant

abbrev details : ℕ → Option Order → Response
details tenant none = http 404
details tenant (some o) = if o.tenant_id == tenant then returned o else http 404

-- `get_order`, which reads the copy of the state in Redis and does not use it.
unfoldable get_order : ℕ → Store → Response
get_order tenant st = details tenant st.order

-- `get_order_events`
unfoldable get_order_events : ℕ → Store → List EventType
get_order_events tenant st = if visible tenant st.order then st.events else []
