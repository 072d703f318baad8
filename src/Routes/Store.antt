-- ===== src/Routes/Store.antt =====
-- What a request of services/order-service/app/routes/orders.py reads and changes: the columns of
-- OrderModel that a handler decides, the events it persists, and what it sends to Kafka and Redis. A
-- handler runs in the transaction of `get_db`: its failure rolls the database back, and nothing else.
use hot_sot.Base.{
  ℕ, suc, ◌+◌, Bool, true, false, Option, none, some, List, [], ◌∷◌, ◌++◌, ◌==◌, ◌&&◌,
  if◌then◌else◌,
}
use hot_sot.Order.Status.{OrderStatus}
use hot_sot.Order.Machine.{Context, Result, ok, err, transition}
use hot_sot.Order.Tables.{default}
use hot_sot.Shelf.Ttl.{Zone}

pub data UserTier : Type 0 where
  free plus pro vip : UserTier

pub data QueueType : Type 0 where
  immediate normal batch : QueueType

-- A dish by the words of its name: whether it has one of the hot or of the cold words.
pub record Item : Type 0 where
  pub is_hot : Bool
  pub is_cold : Bool

-- A slot of `_auto_assign_shelf` by its zone and number, "HOLD_ZONE", or any other text.
pub data ShelfId : Type 0 where
  slot : Zone → ℕ → ShelfId
  hold_zone : ShelfId
  given : ℕ → ShelfId

pub record Order : Type 0 where
  pub tenant_id : ℕ
  pub status : OrderStatus
  pub version : ℕ
  pub user_tier : UserTier
  pub items : List Item
  pub total_amount : ℕ
  pub payment_ref : Option ℕ
  pub queue_type : Option QueueType
  pub priority_score : Option ℕ
  pub shelf_id : Option ShelfId
  pub shelf_zone : Option Zone
  pub shelf_ttl_remaining : Option ℕ
  pub prep_started_at : Option ℕ
  pub ready_at : Option ℕ
  pub arrived_at : Option ℕ
  pub picked_at : Option ℕ

-- The members of EventType that the routes use, and the text "SLOT_CONFLICT".
pub data EventType : Type 0 where
  order_created payment_pending payment_confirmed slot_reserved slot_conflict queue_assigned :
      EventType
  prep_started packing_started prep_completed ready_for_pickup shelf_assigned : EventType
  arrival_detected handoff_started handoff_completed order_picked order_expired : EventType
  order_cancelled compensation_triggered : EventType

-- A call of `acquire_shelf_lock` that succeeded, or of `release_shelf_lock`: tenant and shelf.
pub data LockCall : Type 0 where
  acquired released : ℕ → ShelfId → LockCall

-- Where the database of a request fails: not at all, at its first event or at its second, if it gets there, or
-- else at the commit. No handler persists three.
pub data Failure : Type 0 where
  never at_first at_second at_commit : Failure

-- What Redis answers in a request. `kitchen_load` is the entry of `get_kitchen_load`, `shelf_free` the
-- answer of `acquire_shelf_lock`; `reads` and `writes` say whether the idempotency cache answers.
-- `fssai_failed` is the answer of the compliance gate. `db_fails` is where the database
-- fails.
pub record Answers : Type 0 where
  pub has_redis : Bool
  pub kitchen_load : Option ℕ
  pub shelf_free : ShelfId → Bool
  pub reads : Bool
  pub writes : Bool
  pub now : ℕ
  pub fssai_failed : Bool
  pub db_fails : Failure

-- A request under way.
pub record Request : Type 0 where
  pub order : Order
  pub persisted : List EventType
  pub published : List EventType
  pub locks : List LockCall
  pub cached_status : Option (OrderStatus × ℕ)

-- How a handler goes on: with a value, or with an HTTPException of a status code.
pub data Answer {ℓ} (A : Type ℓ) : Type ℓ where
  done : A → Answer A
  fails : ℕ → Answer A

abbrev pub Handler {ℓ} : Type ℓ → Type ℓ
Handler A = Request → Answer A × Request

abbrev continue {ℓ κ} :
    {A : Type ℓ} {B : Type κ} → Answer A × Request → (A → Handler B) → Answer B × Request
continue (done a, r) next = next a r
continue (fails code, r) next = (fails code, r)

infixl 5 ◌>>=◌ ◌>>◌
abbrev pub ◌>>=◌ {ℓ κ} : {A : Type ℓ} {B : Type κ} → Handler A → (A → Handler B) → Handler B
◌>>=◌ m next r = continue (m r) next

abbrev pub ◌>>◌ {ℓ κ} : {A : Type ℓ} {B : Type κ} → Handler A → Handler B → Handler B
◌>>◌ m next r = continue (m r) (λ a. next)

abbrev pub row : Handler Order
row r = (done r.order, r)

abbrev pub raise {ℓ} : {A : Type ℓ} → ℕ → Handler A
raise code r = (fails code, r)

abbrev pub skip : Handler (Unit {0})
skip r = (done tt, r)

abbrev pub require : Bool → ℕ → Handler (Unit {0})
require holds code = if holds then skip else raise code

abbrev pub set_order : Order → Handler (Unit {0})
set_order o r = (done tt, record r { order = o })

abbrev fails_after : Failure → List EventType → Bool
fails_after at_first [] = true
fails_after at_second (e ∷ []) = true
fails_after _ _ = false

pub by_failure :
    (P : Failure → Type 0) → P never → P at_first → P at_second → P at_commit → (x : Failure) → P x
by_failure P a b c e never = a
by_failure P a b c e at_first = b
by_failure P a b c e at_second = c
by_failure P a b c e at_commit = e

-- `persist_event`, whose flush may fail.
abbrev pub persist_event : Answers → EventType → Handler (Unit {0})
persist_event a e r =
    if fails_after a.db_fails r.persisted
    then (fails 500, r)
    else (done tt, record r { persisted = r.persisted ++ e ∷ [] })

-- `publish_event`; without a producer, or where Kafka fails, it only answers False, which nobody reads.
abbrev pub publish_event : EventType → Handler (Unit {0})
publish_event e r = (done tt, record r { published = r.published ++ e ∷ [] })

abbrev pub call_lock : LockCall → Handler (Unit {0})
call_lock c r = (done tt, record r { locks = r.locks ++ c ∷ [] })

-- `set_order_status`, the copy of the state in Redis with its expiry after 600 seconds, where Redis is there and
-- takes the write.
abbrev pub set_order_status : Answers → Handler (Unit {0})
set_order_status a r = (
  done tt,
  record r {
    cached_status =
        if a.has_redis && a.writes then some (r.order.status, a.now + 600) else r.cached_status;
  },
)

abbrev moved : OrderStatus → Result OrderStatus → Handler (Unit {0})
moved from (ok s) r = (done tt, record r { order = record r.order { status = s } })
moved from (err e) r = (fails 409, r)

-- `order.status = state_machine.transition(...)`, whose errors become a 409.
abbrev pub transit : OrderStatus → OrderStatus → Option Context → Handler (Unit {0})
transit from to context = moved from (transition default from to context)

-- `check_version` and `increment_version`
abbrev pub bump_version : ℕ → Handler (Unit {0})
bump_version expected r =
    if r.order.version == expected
    then (done tt, record r { order = record r.order { version = suc r.order.version } })
    else (fails 409, r)

-- `{}`, and a context without the keys that the routes never set.
abbrev pub no_context : Context
no_context = record {
  slot_available = none;
  waitlist_allowed = none;
  priority_score = none;
  shelf_id = none;
  shelf_capacity = none;
  gps_distance = none;
  qr_scan_valid = none;
  current_state = none;
  shelf_ttl_exceeded = none;
  has_other_keys = false;
}
