-- ===== src/Routes/Locks.antt =====
-- The shelf locks that the calls on an order release (services/order-service/app/routes/orders.py).
use hot_sot.Base.{ℕ, ◌≡◌, Bool, true, false, ◌&&◌, ◌||◌, Option, none, some, List, [], ◌∷◌, ◌==◌}
use hot_sot.Routes.Store.{Order, LockCall, acquired, released, Request, Answer}
use hot_sot.Routes.Pickup.{default_tenant}
use hot_sot.Routes.Service.{Store}

-- Whether a lock is released under a tenant.
abbrev pub frees : ℕ → List LockCall → Bool
frees tenant [] = false
frees tenant (released t s ∷ calls) = t == tenant || frees tenant calls
frees tenant (acquired t s ∷ calls) = frees tenant calls

abbrev Tenant : ℕ → Option Order → Type 0
Tenant t none = Unit
Tenant t (some o) = o.tenant_id ≡ t

-- The order is a tenant's, and nothing was released under the tenant "default".
abbrev Kept : ℕ → Store → Type 0
Kept t st = (Tenant t st.order) × (frees default_tenant st.locks ≡ false)

-- The tenant of the row stays, and what is released is released under it.
abbrev Own : Order → Answer (Unit {0}) × Request → Type 0
Own o (x, r) =
    (r.order.tenant_id ≡ o.tenant_id)
    × ((o.tenant_id == default_tenant) ≡ false → frees default_tenant r.locks ≡ false)

-- Whether every lock call takes a lock under a tenant.
abbrev pub takes : ℕ → List LockCall → Bool
takes tenant [] = true
takes tenant (acquired t s ∷ calls) = t == tenant && takes tenant calls
takes tenant (released t s ∷ calls) = false
