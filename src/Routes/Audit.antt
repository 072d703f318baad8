-- ===== src/Routes/Audit.antt =====
-- The event log of an order, read as the states that it entered.
use hot_sot.Base.{◌≡◌, sym, subst, Bool, true, false, Option, none, some, List, [], ◌∷◌, ◌++◌}
use hot_sot.Order.Status.{OrderStatus}
use hot_sot.Order.Machine.{can_transition}
use hot_sot.Order.Tables.{default}
use hot_sot.Routes.Store.{
  EventType, order_created, payment_pending, payment_confirmed, slot_reserved, queue_assigned,
  prep_started, packing_started, ready_for_pickup, shelf_assigned, arrival_detected,
  handoff_started, handoff_completed, order_expired, order_cancelled,
}

-- The state that an event records; none for an event that records no change of state.
abbrev pub entered : EventType → Option OrderStatus
entered order_created = some OrderStatus.created
entered payment_pending = some OrderStatus.payment_pending
entered payment_confirmed = some OrderStatus.payment_confirmed
entered slot_reserved = some OrderStatus.slot_reserved
entered queue_assigned = some OrderStatus.queue_assigned
entered prep_started = some OrderStatus.in_prep
entered packing_started = some OrderStatus.packing
entered ready_for_pickup = some OrderStatus.ready
entered shelf_assigned = some OrderStatus.on_shelf
entered arrival_detected = some OrderStatus.arrived
entered handoff_started = some OrderStatus.handoff_in_progress
entered handoff_completed = some OrderStatus.picked
entered order_expired = some OrderStatus.expired
entered order_cancelled = some OrderStatus.cancelled
entered _ = none

abbrev pub allows : OrderStatus → Option OrderStatus → Bool
allows s none = false
allows s (some t) = can_transition default s t

abbrev pub after : OrderStatus → Option OrderStatus → OrderStatus
after s none = s
after s (some t) = t

-- A log leads from a state to another by transitions that the state machine allows.
abbrev pub Trace : OrderStatus → List EventType → OrderStatus → Type 0
Trace s [] t = s ≡ t
Trace s (e ∷ es) t = (allows s (entered e) ≡ true) × Trace (after s (entered e)) es t

pub Trace-append :
    (s t u : OrderStatus) (es fs : List EventType)
    → Trace s es t
    → Trace t fs u
    → Trace s (es ++ fs) u
Trace-append s t u [] fs p q = subst (λ v. Trace v fs u) (sym p) q
Trace-append s t u (e ∷ es) fs p q = (p.0, Trace-append (after s (entered e)) t u es fs p.1 q)
