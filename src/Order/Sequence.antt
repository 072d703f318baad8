-- ===== src/Order/Sequence.antt =====
-- `StateMachine.validate_sequence` against the chains of transitions from CREATED.
use hot_sot.Base.{ℕ, suc, ◌≡◌, refl, ◌↔◌, true, List, [], ◌∷◌, ◌++◌, arith}
use hot_sot.Order.Status.{OrderStatus, created, same_status}
use hot_sot.Order.Machine.{
  StateMachine, can_transition, from_errors, step_errors, validate_from, validate_sequence,
}

abbrev pub Steps : Type 0
Steps = List (OrderStatus × OrderStatus)

-- Each step starts in the state that the one before it reached, and the table allows it.
abbrev pub Chain : StateMachine → OrderStatus → Steps → Type 0
Chain m s [] = Unit
Chain m s ((from, to) ∷ ts) = (from ≡ s) × (can_transition m from to ≡ true) × Chain m to ts

-- The state after the steps.
abbrev pub reached : OrderStatus → Steps → OrderStatus
reached s [] = s
reached s ((from, to) ∷ ts) = reached to ts

pub same_status_iff : (s t : OrderStatus) → (same_status s t ≡ true) ↔ (s ≡ t)
same_status_iff created t = ground arith
same_status_iff s t = ground arith

append-nil_iff {ℓ} : {A : Type ℓ} (xs ys : List A) → (xs ++ ys ≡ []) ↔ ((xs ≡ []) × (ys ≡ []))
append-nil_iff [] ys = (λ h. (refl, h), λ h. h.1)
append-nil_iff (x ∷ xs) ys = (λ h. cc, λ h. cc)

from_errors_iff : (i : ℕ) (s from : OrderStatus) → (from_errors i s from ≡ []) ↔ (from ≡ s)
from_errors_iff i s from = ground (arith, same_status_iff from s)

step_errors_iff :
    (m : StateMachine) (i : ℕ) (from to : OrderStatus)
    → (step_errors m i from to ≡ []) ↔ (can_transition m from to ≡ true)
step_errors_iff m i from to = ground arith

validate_from_iff :
    (m : StateMachine) (i : ℕ) (s : OrderStatus) (ts : Steps)
    → (validate_from m i s ts ≡ []) ↔ Chain m s ts
unfolding validate_from
validate_from_iff m i s [] = (λ _. tt, λ _. refl)
validate_from_iff m i s ((from, to) ∷ ts) =
    let first =
      append-nil_iff (from_errors i s from)
        (step_errors m i from to ++ validate_from m (suc i) to ts) in
    let second = append-nil_iff (step_errors m i from to) (validate_from m (suc i) to ts) in
    let rest = validate_from_iff m (suc i) to ts in
    (
      λ h. (
        (from_errors_iff i s from).0 (first.0 h).0,
        (step_errors_iff m i from to).0 (second.0 (first.0 h).1).0,
        rest.0 (second.0 (first.0 h).1).1,
      ),
      λ c. first.1 (
        (from_errors_iff i s from).1 c.0,
        second.1 ((step_errors_iff m i from to).1 c.1, rest.1 c.2),
      ),
    )

-- `validate_sequence` reports no error exactly for the chains of allowed transitions from CREATED.
pub validate_sequence_iff :
    (m : StateMachine) (ts : Steps) → (validate_sequence m ts ≡ []) ↔ Chain m created ts
unfolding validate_sequence
validate_sequence_iff m ts = validate_from_iff m 0 created ts
