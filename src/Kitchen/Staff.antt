-- ===== src/Kitchen/Staff.antt =====
-- `StaffAssignmentEngine` of services/kitchen-service/app/core/engine.py, for one kitchen and role. The
-- Redis server is a parameter, with the laws of its lists.
use hot_sot.Base.{ℕ, ◌≡◌, Bool, true, false, Option, none, some, List, [], ◌∷◌, ◌++◌}

-- A Redis server by its states: the list of available staff, and the keys of the busy ones.
pub record Redis (S : Type 0) : Type 0 where
  pub lrange : S → List ℕ
  pub lpop : S → Option ℕ × S
  pub rpush : ℕ → S → S
  -- The key of a staff member, and the order in its value.
  pub set_busy : ℕ → ℕ → S → S
  pub delete_busy : ℕ → S → S
  pub lpop_empty : (s : S) → lrange s ≡ [] → lpop s ≡ (none, s)
  pub lpop_first :
      (s : S) (m : ℕ) (ms : List ℕ)
      → lrange s ≡ m ∷ ms
      → (t : S) × (lpop s ≡ (some m, t)) × (lrange t ≡ ms)
  pub lrange-rpush : (m : ℕ) (s : S) → lrange (rpush m s) ≡ lrange s ++ m ∷ []
  pub lrange-set_busy : (m order : ℕ) (s : S) → lrange (set_busy m order s) ≡ lrange s
  pub lrange-delete_busy : (m : ℕ) (s : S) → lrange (delete_busy m s) ≡ lrange s

-- Which command of a method raises: none, its first or its second without effect, or its first or its second
-- after it ran, where the answer is lost.
pub data Link : Type 0 where
  up refuses breaks loses loses_last : Link

module _ {S : Type 0} (redis : Redis S) where
  abbrev pub assigned : ℕ → Link → Option ℕ × S → S × Option ℕ
  assigned order link (none, s) = (s, none)
  assigned order breaks (some m, s) = (s, none)
  assigned order loses (some m, s) = (s, none)
  assigned order loses_last (some m, s) = (redis.set_busy m order s, none)
  assigned order up (some m, s) = (redis.set_busy m order s, some m)
  assigned order refuses (some m, s) = (s, none)

  -- `assign_staff`; a member that was popped is gone from the list even if marking it busy raises.
  unfoldable pub assign_staff : ℕ → Link → S → S × Option ℕ
  assign_staff order refuses s = (s, none)
  assign_staff order up s = assigned order up (redis.lpop s)
  assign_staff order breaks s = assigned order breaks (redis.lpop s)
  assign_staff order loses s = assigned order loses (redis.lpop s)
  assign_staff order loses_last s = assigned order loses_last (redis.lpop s)

  unfoldable pub release_staff : ℕ → Link → S → S × Bool
  release_staff m refuses s = (s, false)
  release_staff m loses s = (redis.delete_busy m s, false)
  release_staff m loses_last s = (redis.rpush m (redis.delete_busy m s), false)
  release_staff m breaks s = (redis.delete_busy m s, false)
  release_staff m up s = (redis.rpush m (redis.delete_busy m s), true)

  -- One command, so `breaks` and `loses_last` do not touch it.
  unfoldable pub register_staff : ℕ → Link → S → S × Bool
  register_staff m refuses s = (s, false)
  register_staff m loses s = (redis.rpush m s, false)
  register_staff m loses_last s = (redis.rpush m s, true)
  register_staff m breaks s = (redis.rpush m s, true)
  register_staff m up s = (redis.rpush m s, true)
