-- ===== src/Shelf/Keys.antt =====
-- The dict of the in-memory fallback
-- (services/shelf-service/app/core/ttl_engine.py).
use hot_sot.Base.{
  ◌≡◌, refl, sym, subst, inl, inr, true, none, some, [], ◌∷◌, arith, if◌then◌else◌, Bool-cases,
}
use hot_sot.Shelf.Ttl.{Info, Key, same_key, Fallback, insert, remove, lookup}

-- No key stands twice, as in a dict.
abbrev pub IsUnique : Fallback → Type 0
IsUnique [] = Unit
IsUnique ((k, i) ∷ f) = (lookup k f ≡ none) × IsUnique f

pub same_key_refl : (k : Key) → same_key k k ≡ true
same_key_refl k = ground arith

pub same_key-eq : (k j : Key) → same_key k j ≡ true → k ≡ j
same_key-eq k j h = ground arith

pub same_key_sym : (k j : Key) → same_key k j ≡ same_key j k
same_key_sym k j = ground arith

-- An entry is read back under its key, and the other keys hold what they held.
pub lookup-insert :
    (j k : Key) (i : Info) (f : Fallback)
    → lookup j (insert k i f) ≡ (if same_key j k then some i else lookup j f)
lookup-insert j k i [] = refl
lookup-insert j k i ((l, old) ∷ f) = ground (arith, lookup-insert j k i f)

pub insert-IsUnique : (k : Key) (i : Info) (f : Fallback) → IsUnique f → IsUnique (insert k i f)
insert-IsUnique k i [] u = (refl, tt)
insert-IsUnique k i ((l, old) ∷ f) (fresh, u) = elim (Bool-cases (same_key k l)) [
  | inl same ↦ rw same (subst (λ j. lookup j f ≡ none) (sym (same_key-eq k l same)) fresh, u)
  | inr other ↦
      rw other (ground (arith, lookup-insert l k i f, same_key_sym l k), insert-IsUnique k i f u)
]

pub remove-none : (j k : Key) (f : Fallback) → lookup j f ≡ none → lookup j (remove k f) ≡ none
remove-none j k [] h = refl
remove-none j k ((l, i) ∷ f) h = ground (arith, remove-none j k f)

pub remove-IsUnique : (k : Key) (f : Fallback) → IsUnique f → IsUnique (remove k f)
remove-IsUnique k [] u = tt
remove-IsUnique k ((l, i) ∷ f) (fresh, u) = elim (Bool-cases (same_key k l)) [
  | inl same ↦ rw same u
  | inr other ↦ rw other (remove-none l k f fresh, remove-IsUnique k f u)
]
