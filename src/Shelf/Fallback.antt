-- ===== src/Shelf/Fallback.antt =====
-- The in-memory fallback of the shelf service
-- (services/shelf-service/app/core/ttl_engine.py).
use hot_sot.Base.{
  ℕ, ◌+◌, ◌*◌, ◌≤◌, ◌<◌, ◌≡◌, refl, sym, ap, subst, ◌∙◌, ◌⊎◌, inl, inr, true, Option, none, some,
  List, [], ◌∷◌, arith, if◌then◌else◌, length, Bool-cases,
}
use hot_sot.Shelf.Ttl.{
  second, Zone, ttl_of, Info, Key, same_key, Fallback, lookup, assigned, assign_shelf_ttl, Expired,
  is_due, expire, check_fallback_expired, cleanup_fallback,
}
use hot_sot.Shelf.Keys.{
  IsUnique, same_key_refl, same_key-eq, lookup-insert, insert-IsUnique, remove-IsUnique,
}

-- What a key still holds after a check.
abbrev pub kept : Option ℕ → Option ℕ → ℕ → Key → Option Info → Option Info
kept kitchen tenant now k none = none
kept kitchen tenant now k (some i) = if is_due kitchen tenant now (k, i) then none else some i

-- An entry stands in a report.
abbrev pub Occurs : Expired → List Expired → Type 0
Occurs x [] = ⊥
Occurs x (y ∷ ys) = (x ≡ y) ⊎ Occurs x ys

check-none :
    (kitchen tenant : Option ℕ) (now : ℕ) (k : Key) (f : Fallback)
    → lookup k f ≡ none
    → lookup k (check_fallback_expired kitchen tenant now f).0 ≡ none
unfolding check_fallback_expired
check-none kitchen tenant now k [] h = refl
check-none kitchen tenant now k ((l, i) ∷ f) h = ground (arith, check-none kitchen tenant now k f)

check-lookup :
    (kitchen tenant : Option ℕ) (now : ℕ) (k : Key) (f : Fallback)
    → IsUnique f
    → lookup k (check_fallback_expired kitchen tenant now f).0
      ≡ kept kitchen tenant now k (lookup k f)
unfolding check_fallback_expired
check-lookup kitchen tenant now k [] u = refl
check-lookup kitchen tenant now k ((l, i) ∷ f) (fresh, u) = elim (Bool-cases (same_key k l)) [
  | inl same ↦
      let e = same_key-eq k l same in
      ground (
        arith,
        check-none kitchen tenant now k f,
        subst (λ j. lookup j f ≡ none) (sym e) fresh,
        subst (λ j. is_due kitchen tenant now (l, i) ≡ is_due kitchen tenant now (j, i)) (sym e)
            refl,
      )
  | inr other ↦ ground (arith, check-lookup kitchen tenant now k f u)
]

check-IsUnique :
    (kitchen tenant : Option ℕ) (now : ℕ) (f : Fallback)
    → IsUnique f
    → IsUnique (check_fallback_expired kitchen tenant now f).0
unfolding check_fallback_expired
check-IsUnique kitchen tenant now [] u = tt
check-IsUnique kitchen tenant now ((l, i) ∷ f) (fresh, u) =
    elim (Bool-cases (is_due kitchen tenant now (l, i))) [
      | inl due ↦ rw due (check-IsUnique kitchen tenant now f u)
      | inr stays ↦
          rw stays (check-none kitchen tenant now l f fresh, check-IsUnique kitchen tenant now f u)
    ]

-- A second check at the same time.
again :
    (kitchen tenant : Option ℕ) (now : ℕ) (f : Fallback)
    → (check_fallback_expired kitchen tenant now (check_fallback_expired kitchen tenant now f).0).1
      ≡ []
unfolding check_fallback_expired
again kitchen tenant now [] = refl
again kitchen tenant now (e ∷ f) = elim (Bool-cases (is_due kitchen tenant now e)) [
  | inl due ↦ rw due (again kitchen tenant now f)
  | inr stays ↦ rw stays (rw (stays, again kitchen tenant now f))
]

lengths :
    (kitchen tenant : Option ℕ) (now : ℕ) (f : Fallback)
    → length (check_fallback_expired kitchen tenant now f).0
        + length (check_fallback_expired kitchen tenant now f).1
      ≡ length f
unfolding check_fallback_expired
lengths kitchen tenant now [] = refl
lengths kitchen tenant now (e ∷ f) = ground (arith, lengths kitchen tenant now f)

check-Occurs :
    (kitchen tenant : Option ℕ) (now : ℕ) (k : Key) (i : Info) (f : Fallback)
    → lookup k f ≡ some i
    → is_due kitchen tenant now (k, i) ≡ true
    → Occurs (expire now i) (check_fallback_expired kitchen tenant now f).1
unfolding check_fallback_expired
check-Occurs kitchen tenant now k i [] h due = absurd cc
check-Occurs kitchen tenant now k i ((l, j) ∷ f) h due = elim (Bool-cases (same_key k l)) [
  | inl same ↦
      let e = same_key-eq k l same in
      let it : i ≡ j = ground arith in
      let due' : is_due kitchen tenant now (l, j) ≡ true =
        subst (λ z. is_due kitchen tenant now (z, j) ≡ true) e
          (subst (λ z. is_due kitchen tenant now (k, z) ≡ true) it due) in
      rw due' (inl (ap (expire now) it))
  | inr other ↦
      let rest =
        check-Occurs kitchen tenant now k i f
          (subst (λ b. (if b then some j else lookup k f) ≡ some i) other h) due in
      elim (Bool-cases (is_due kitchen tenant now (l, j))) [
        | inl d ↦ rw d (inr rest)
        | inr s ↦ rw s rest
      ]
]

-- The methods of the engine that change the fallback, with what each is given.
pub data Call : Type 0 where
  assign : ℕ → ℕ → Zone → ℕ → ℕ → ℕ → Call
  check : Option ℕ → Option ℕ → ℕ → Call
  cleanup : ℕ → ℕ → Call

unfoldable pub call : Call → Fallback → Fallback
call (assign shelf order zone kitchen tenant now) f =
    (assign_shelf_ttl f shelf order zone kitchen tenant now).0
call (check kitchen tenant now) f = (check_fallback_expired kitchen tenant now f).0
call (cleanup shelf tenant) f = cleanup_fallback shelf tenant f

unfoldable pub calls : List Call → Fallback → Fallback
calls [] f = f
calls (c ∷ cs) f = calls cs (call c f)

call-IsUnique : (c : Call) (f : Fallback) → IsUnique f → IsUnique (call c f)
unfolding call assign_shelf_ttl cleanup_fallback
call-IsUnique (assign shelf order zone kitchen tenant now) f u =
    insert-IsUnique (record { tenant = tenant; shelf = shelf })
      (assigned shelf order zone kitchen now) f u
call-IsUnique (check kitchen tenant now) f u = check-IsUnique kitchen tenant now f u
call-IsUnique (cleanup shelf tenant) f u =
    remove-IsUnique (record { tenant = tenant; shelf = shelf }) f u

pub calls-IsUnique : (cs : List Call) (f : Fallback) → IsUnique f → IsUnique (calls cs f)
unfolding calls
calls-IsUnique [] f u = u
calls-IsUnique (c ∷ cs) f u = calls-IsUnique cs (call c f) (call-IsUnique c f u)

-- After any sequence of calls on a new engine, a check loses nothing and reports nothing twice: it
-- keeps each key that is not due as it was and drops the due ones, what it keeps and what it
-- reports add up to what was there, and a second check at the same time reports nothing.
pub check_lem :
    (cs : List Call) (kitchen tenant : Option ℕ) (now : ℕ) (k : Key)
    → let f = calls cs [] in
      let (left, found) = check_fallback_expired kitchen tenant now f in
      (lookup k left ≡ kept kitchen tenant now k (lookup k f))
      × (length left + length found ≡ length f)
      × ((check_fallback_expired kitchen tenant now left).1 ≡ [])
check_lem cs kitchen tenant now k =
    let f = calls cs [] in
    (
      check-lookup kitchen tenant now k f (calls-IsUnique cs [] tt),
      lengths kitchen tenant now f,
      again kitchen tenant now f,
    )

ttl_of-pos : (zone : Zone) → 0 < ttl_of zone
unfolding ttl_of
ttl_of-pos zone = ground arith

is_due-assigned :
    (shelf order : ℕ) (zone : Zone) (kitchen tenant now later : ℕ)
    → now + ttl_of zone * second ≤ later
    → is_due
        (some kitchen)
        (some tenant)
        later
        (record { tenant = tenant; shelf = shelf }, assigned shelf order zone kitchen now)
      ≡ true
unfolding assigned
is_due-assigned shelf order zone kitchen tenant now later late = ground (arith, ttl_of-pos zone)

-- An assignment that Redis never saw expires all the same: after it, and while its key is left alone,
-- the check for its kitchen and tenant reports it as soon as its TTL has passed.
pub assign-check :
    (f g : Fallback) (shelf order : ℕ) (zone : Zone) (kitchen tenant now later : ℕ)
    → lookup (record { tenant = tenant; shelf = shelf }) g
      ≡ lookup
          (record { tenant = tenant; shelf = shelf })
          (assign_shelf_ttl f shelf order zone kitchen tenant now).0
    → now + ttl_of zone * second ≤ later
    → Occurs
        (expire later (assign_shelf_ttl f shelf order zone kitchen tenant now).1)
        (check_fallback_expired (some kitchen) (some tenant) later g).1
unfolding assign_shelf_ttl
assign-check f g shelf order zone kitchen tenant now later h late =
    let k : Key = record { tenant = tenant; shelf = shelf } in
    let i = assigned shelf order zone kitchen now in
    check-Occurs (some kitchen) (some tenant) later k i g
      (h ∙ lookup-insert k k i f ∙ ap (λ b. if b then some i else lookup k f) (same_key_refl k))
      (is_due-assigned shelf order zone kitchen tenant now later late)
