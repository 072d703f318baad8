-- ===== src/Kitchen/Conserved.antt =====
-- Where the members of the staff go
-- (`StaffAssignmentEngine` of services/kitchen-service/app/core/engine.py).
use hot_sot.Base.{
  ℕ, ◌+◌, ◌≡◌, refl, Bool, true, false, Option, none, some, List, [], ◌∷◌, ◌++◌, ◌==◌,
  if◌then◌else◌, arith,
}
use hot_sot.Kitchen.Staff.{
  Redis, Link, up, refuses, breaks, loses, loses_last, assign_staff, release_staff, register_staff,
}

-- How often a member stands in a list.
abbrev pub count : ℕ → List ℕ → ℕ
count m [] = 0
count m (x ∷ xs) = (if m == x then 1 else 0) + count m xs

abbrev pub one_if : Bool → ℕ
one_if true = 1
one_if false = 0

abbrev pub count_some : ℕ → Option ℕ → ℕ
count_some m none = 0
count_some m (some x) = if m == x then 1 else 0

pub data Call : Type 0 where
  assign : ℕ → Link → Call
  release register : ℕ → Link → Call

count-append :
    (m x : ℕ) (xs : List ℕ) → count m (xs ++ x ∷ []) ≡ count m xs + (if m == x then 1 else 0)
count-append m x [] = omega arith
count-append m x (y ∷ xs) = omega (arith, count-append m x xs)

abbrev first : List ℕ → Option ℕ
first [] = none
first (m ∷ ms) = some m

module _ {S : Type 0} (redis : Redis S) where
  -- The state after a call, how often it made `m` available and said so, how often it did so unsaid, how
  -- often it handed `m` out, and how often it took `m` off the list without handing it out.
  pub record Effect : Type 0 where
    pub state : S
    pub entered : ℕ
    pub unsaid : ℕ
    pub handed : ℕ
    pub lost : ℕ

  -- A member is lost where `assign_staff` raises after the pop has run.
  abbrev lost_by : ℕ → Link → S → ℕ
  lost_by m breaks s = count_some m (first (redis.lrange s))
  lost_by m loses s = count_some m (first (redis.lrange s))
  lost_by m loses_last s = count_some m (first (redis.lrange s))
  lost_by m up s = 0
  lost_by m refuses s = 0

  -- A member is pushed unsaid where the answer to the push of `release_staff` or of `register_staff` is lost.
  abbrev released_unsaid : Link → Bool
  released_unsaid loses_last = true
  released_unsaid _ = false

  abbrev registered_unsaid : Link → Bool
  registered_unsaid loses = true
  registered_unsaid _ = false

  unfoldable pub effect : ℕ → Call → S → Effect
  effect m (assign order link) s =
      let (t, given) = assign_staff redis order link s in
      record {
        state = t;
        entered = 0;
        unsaid = 0;
        handed = count_some m given;
        lost = lost_by m link s;
      }
  effect m (release x link) s =
      let (t, done) = release_staff redis x link s in
      record {
        state = t;
        entered = if m == x then one_if done else 0;
        unsaid = if m == x then one_if (released_unsaid link) else 0;
        handed = 0;
        lost = 0;
      }
  effect m (register x link) s =
      let (t, done) = register_staff redis x link s in
      record {
        state = t;
        entered = if m == x then one_if done else 0;
        unsaid = if m == x then one_if (registered_unsaid link) else 0;
        handed = 0;
        lost = 0;
      }

  unfoldable pub effects : ℕ → List Call → S → Effect
  effects m [] s = record { state = s; entered = 0; unsaid = 0; handed = 0; lost = 0 }
  effects m (c ∷ cs) s =
      let e = effect m c s in
      let rest = effects m cs e.state in
      record {
        state = rest.state;
        entered = e.entered + rest.entered;
        unsaid = e.unsaid + rest.unsaid;
        handed = e.handed + rest.handed;
        lost = e.lost + rest.lost;
      }

  unfoldable pub Balanced : ℕ → S → Effect → Type 0
  Balanced m s e =
      count m (redis.lrange e.state) + e.handed + e.lost
      ≡ count m (redis.lrange s) + e.entered + e.unsaid

  assign-Balanced :
      (m order : ℕ) (link : Link) (s : S) (l : List ℕ)
      → redis.lrange s ≡ l
      → Balanced m s (effect m (assign order link) s)
  unfolding effect assign_staff Balanced
  assign-Balanced m order refuses s l h = omega arith
  assign-Balanced m order up s [] h = rw (redis.lpop_empty s h) (omega arith)
  assign-Balanced m order breaks s [] h = rw (redis.lpop_empty s h, h) (omega arith)
  assign-Balanced m order loses s [] h = rw (redis.lpop_empty s h, h) (omega arith)
  assign-Balanced m order loses_last s [] h = rw (redis.lpop_empty s h, h) (omega arith)
  assign-Balanced m order up s (x ∷ xs) h =
      let (t, popped, left) = redis.lpop_first s x xs h in
      rw (popped, redis.lrange-set_busy, left, h) (omega arith)
  assign-Balanced m order breaks s (x ∷ xs) h =
      let (t, popped, left) = redis.lpop_first s x xs h in rw (popped, left, h) (omega arith)
  assign-Balanced m order loses s (x ∷ xs) h =
      let (t, popped, left) = redis.lpop_first s x xs h in rw (popped, left, h) (omega arith)
  assign-Balanced m order loses_last s (x ∷ xs) h =
      let (t, popped, left) = redis.lpop_first s x xs h in
      rw (popped, redis.lrange-set_busy, left, h) (omega arith)

  effect-Balanced : (m : ℕ) (c : Call) (s : S) → Balanced m s (effect m c s)
  unfolding effect release_staff register_staff Balanced
  effect-Balanced m (assign order link) s = assign-Balanced m order link s (redis.lrange s) refl
  effect-Balanced m (release x refuses) s = ground arith
  effect-Balanced m (release x breaks) s = rw redis.lrange-delete_busy (ground arith)
  effect-Balanced m (release x loses) s = rw redis.lrange-delete_busy (ground arith)
  effect-Balanced m (release x loses_last) s =
      rw (redis.lrange-rpush, redis.lrange-delete_busy, count-append) (grind arith)
  effect-Balanced m (release x up) s =
      rw (redis.lrange-rpush, redis.lrange-delete_busy, count-append) (grind arith)
  effect-Balanced m (register x refuses) s = ground arith
  effect-Balanced m (register x breaks) s = rw (redis.lrange-rpush, count-append) (grind arith)
  effect-Balanced m (register x loses) s = rw (redis.lrange-rpush, count-append) (grind arith)
  effect-Balanced m (register x loses_last) s = rw (redis.lrange-rpush, count-append) (grind arith)
  effect-Balanced m (register x up) s = rw (redis.lrange-rpush, count-append) (grind arith)

  -- Over any calls, whichever commands raise, before or after they ran, the times that a member is available at
  -- the end, was handed out, or was popped by an assignment that then raised, are together the times it was
  -- available before, was registered or released with success, or was pushed by a command whose answer is lost.
  pub effects-Balanced : (m : ℕ) (cs : List Call) (s : S) → Balanced m s (effects m cs s)
  unfolding effects Balanced
  effects-Balanced m [] s = omega arith
  effects-Balanced m (c ∷ cs) s =
      omega (arith, effect-Balanced m c s, effects-Balanced m cs (effect m c s).state)
