-- ===== src/Routes/Pickup.antt =====
-- `assign_shelf`, `confirm_arrival` and `confirm_handoff` of
-- services/order-service/app/routes/orders.py.
use hot_sot.Base.{
  ℕ, zero, suc, Bool, true, false, not, ◌&&◌, ◌||◌, Option, none, some, List, [], ◌∷◌, ◌++◌,
  if◌then◌else◌,
}
use hot_sot.Order.Status.{OrderStatus, same_status}
use hot_sot.Order.Machine.{get_or}
use hot_sot.Shelf.Ttl.{Zone, hot, cold, ambient, ttl_of}
use hot_sot.Routes.Store.{
  Item, ShelfId, slot, hold_zone, given, shelf_assigned, arrival_detected, handoff_started,
  handoff_completed, order_picked, LockCall, acquired, released, Answers, Handler, ◌>>=◌, ◌>>◌, row,
  set_order_status, skip, require, set_order, persist_event, publish_event, call_lock, transit,
  bump_version, no_context, done,
}

-- `_determine_zone`
unfoldable pub determine_zone : List Item → Zone
determine_zone [] = hot
determine_zone (i ∷ is) =
    let rest = determine_zone is in if i.is_hot then hot else if i.is_cold then cold else rest

-- The tenant "default".
abbrev pub default_tenant : ℕ
default_tenant = 0

-- The first free of `left` slots of a zone, from number `n` on.
abbrev first_free : (ShelfId → Bool) → Zone → ℕ → ℕ → Option ShelfId
first_free free zone zero n = none
first_free free zone (suc left) n =
    let rest = first_free free zone left (suc n) in
    if free (slot zone n) then some (slot zone n) else rest

-- `_auto_assign_shelf`, with SHELF_SLOTS_PER_KITCHEN slots; "H1" without Redis.
unfoldable pub auto_assign_shelf : Answers → Zone → Option ShelfId
auto_assign_shelf a zone =
    if a.has_redis then first_free a.shelf_free zone 6 1 else some (slot hot 1)

abbrev is_hold_zone : ShelfId → Bool
is_hold_zone hold_zone = true
is_hold_zone (slot z n) = false
is_hold_zone (given n) = false

abbrev locked : Answers → ℕ → ShelfId → Handler (Unit {0})
locked a tenant shelf = if a.has_redis then call_lock (acquired tenant shelf) else skip

-- The shelf asked for, with its lock under the tenant of the user.
abbrev ask_shelf : Answers → ℕ → ShelfId → Zone → Handler (ShelfId × Zone)
ask_shelf a tenant shelf zone = do
  require (not a.has_redis || a.shelf_free shelf) 409
  locked a tenant shelf
  (λ r. (done (shelf, zone), r))

-- A slot of its own choice, with its lock under the tenant "default"; if none is free, HOLD_ZONE.
abbrev choose_shelf : Answers → Zone → Option ShelfId → Handler (ShelfId × Zone)
choose_shelf a zone none r = (done (hold_zone, ambient), r)
choose_shelf a zone (some shelf) r =
    (locked a default_tenant shelf >> (λ q. (done (shelf, zone), q))) r

abbrev find_shelf : Answers → ℕ → Option ShelfId → Zone → Handler (ShelfId × Zone)
find_shelf a tenant none zone = choose_shelf a zone (auto_assign_shelf a zone)
find_shelf a tenant (some shelf) zone = ask_shelf a tenant shelf zone

-- A shelf's text is there, whatever it is; the guard reads no more of it.
abbrev capacity_of : ShelfId → ℕ
capacity_of shelf = if is_hold_zone shelf then 0 else 1

unfoldable pub assign_shelf : Option ShelfId → Option Zone → Answers → Handler (Unit {0})
unfolding auto_assign_shelf determine_zone ttl_of
assign_shelf shelf_id zone a = do
  order ← row
  require (same_status order.status OrderStatus.ready) 409
  found ← find_shelf a order.tenant_id shelf_id (get_or zone (determine_zone order.items))
  transit OrderStatus.ready OrderStatus.on_shelf
      (some (record no_context { shelf_id = some 0; shelf_capacity = some (capacity_of found.0) }))
  order' ← row
  set_order (record order' {
    shelf_id = some found.0;
    shelf_zone = some found.1;
    shelf_ttl_remaining = some (ttl_of found.1);
  })
  persist_event a shelf_assigned
  set_order_status a
  publish_event shelf_assigned

unfoldable pub confirm_arrival : Bool → Answers → Handler (Unit {0})
confirm_arrival qr_scan a = do
  order ← row
  require (same_status order.status OrderStatus.on_shelf) 409
  transit OrderStatus.on_shelf OrderStatus.arrived (
      some (record no_context {
        gps_distance = some (if qr_scan then 100 else 50);
        qr_scan_valid = some qr_scan;
      }))
  order' ← row
  set_order (record order' { arrived_at = some a.now })
  persist_event a arrival_detected
  set_order_status a
  publish_event arrival_detected

-- `release_shelf_lock` for the shelf of an order, under the tenant of the user.
abbrev releases : Answers → ℕ → Option ShelfId → List LockCall
releases a tenant none = []
releases a tenant (some shelf) =
    if a.has_redis && not (is_hold_zone shelf) then released tenant shelf ∷ [] else []

abbrev pub release_shelf : Answers → ℕ → Option ShelfId → Handler (Unit {0})
release_shelf a tenant shelf r = (done tt, record r { locks = r.locks ++ releases a tenant shelf })

abbrev begin_handoff : Answers → ℕ → Handler (Unit {0})
begin_handoff a expected_version = do
  transit OrderStatus.arrived OrderStatus.handoff_in_progress none
  bump_version expected_version
  persist_event a handoff_started

abbrev end_handoff : Answers → ℕ → Handler (Unit {0})
end_handoff a expected_version = do
  transit OrderStatus.handoff_in_progress OrderStatus.picked none
  order ← row
  set_order (record order { picked_at = some a.now })
  bump_version expected_version
  persist_event a handoff_completed

-- Both steps compare with the version that the order had before the first.
unfoldable pub confirm_handoff : Answers → Handler (Unit {0})
confirm_handoff a = do
  order ← row
  (if same_status order.status OrderStatus.arrived then begin_handoff a order.version else skip)
  begun ← row
  (if same_status begun.status OrderStatus.handoff_in_progress
      then end_handoff a order.version
      else skip)
  release_shelf a order.tenant_id order.shelf_id
  set_order_status a
  publish_event handoff_completed
  publish_event order_picked
