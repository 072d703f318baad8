-- ===== src/Order/Milestones.antt =====
-- No stage of the main line can be skipped
-- (services/order-service/app/core/state_machine.py over `VALID_TRANSITIONS`).
use hot_sot.Base.{
  ◌≤◌, ◌≡◌, refl, Bool, true, false, not, ◌&&◌, ◌||◌, List, [], ◌∷◌, arith, leb, Bool-cases, inl,
  inr,
}
use hot_sot.Order.Status.{
  OrderStatus, created, payment_confirmed, slot_reserved, queue_assigned, batch_wait, expired,
  refunded, cancelled, failed, valid_transitions, same_status, contains,
}
use hot_sot.Order.Machine.{
  can_transition, validate_sequence, is_cancellable, get_compensation_steps, CompensationStep,
  refund_payment,
}
use hot_sot.Order.Tables.{for_all, for_all_sound, implies, default}
use hot_sot.Order.Lifecycle.{stage}
use hot_sot.Order.Sequence.{Steps, Chain, reached, validate_sequence_iff}

-- The states from CREATED to PICKED; the others end an order early.
abbrev pub on_main_line : OrderStatus → Bool
on_main_line expired = false
on_main_line refunded = false
on_main_line cancelled = false
on_main_line failed = false
on_main_line _ = true

-- The states that an order on the main line must pass: all but the start and the optional wait for
-- a batch.
abbrev pub is_milestone : OrderStatus → Bool
is_milestone created = false
is_milestone batch_wait = false
is_milestone s = on_main_line s

-- `s` is on the main line, at `x` or later.
has_passed : OrderStatus → OrderStatus → Bool
has_passed x s = on_main_line s && leb (stage x) (stage s)

-- The states that the steps enter.
abbrev pub visited : Steps → List OrderStatus
visited [] = []
visited ((from, to) ∷ ts) = to ∷ visited ts

crossing_table :
    for_all (λ x. for_all (λ s. for_all (λ t.
      implies
        (is_milestone x && not (has_passed x s) && can_transition default s t && has_passed x t)
        (same_status t x))))
    ≡ true
unfolding for_all can_transition valid_transitions has_passed
crossing_table = refl

modus :
    (a b c d e : Bool)
    → implies (a && not b && c && d) e ≡ true
    → a ≡ true
    → b ≡ false
    → c ≡ true
    → d ≡ true
    → e ≡ true
modus a b c d e h p q r t = ground arith

or-left : (a b : Bool) → a ≡ true → (a || b) ≡ true
or-left a b h = ground arith

or-right : (a b : Bool) → b ≡ true → (a || b) ≡ true
or-right a b h = ground arith

-- The only way past a milestone is into it.
crossing :
    (x s t : OrderStatus)
    → is_milestone x ≡ true
    → has_passed x s ≡ false
    → can_transition default s t ≡ true
    → has_passed x t ≡ true
    → same_status t x ≡ true
crossing x s t =
    modus (is_milestone x) (has_passed x s) (can_transition default s t) (has_passed x t)
      (same_status t x) (for_all_sound _ t (for_all_sound _ s (for_all_sound _ x crossing_table)))

visited-milestone :
    (x s : OrderStatus) (ts : Steps)
    → is_milestone x ≡ true
    → has_passed x s ≡ false
    → Chain default s ts
    → has_passed x (reached s ts) ≡ true
    → contains (visited ts) x ≡ true
visited-milestone x s [] m before c after = absurd (cc)
visited-milestone x s ((from, to) ∷ ts) m before c after = elim (Bool-cases (has_passed x to)) [
  | inl now ↦ or-left _ _ (crossing x from to m (rw c.0 before) c.1 now)
  | inr later ↦ or-right _ _ (visited-milestone x to ts m later c.2 after)
]

created_before : (x : OrderStatus) → is_milestone x ≡ true → has_passed x created ≡ false
unfolding has_passed
created_before created h = cc
created_before x h = ground arith

-- An order that `validate_sequence` accepts and that is on the main line has entered each milestone up
-- to its state, in particular PAYMENT_CONFIRMED before IN_PREP, and all ten before PICKED.
pub contains-visited :
    (x : OrderStatus) (ts : Steps)
    → validate_sequence default ts ≡ []
    → is_milestone x ≡ true
    → on_main_line (reached created ts) ≡ true
    → stage x ≤ stage (reached created ts)
    → contains (visited ts) x ≡ true
unfolding has_passed
contains-visited x ts h m on late =
    visited-milestone x created ts m (created_before x m) ((validate_sequence_iff default ts).0 h)
      (ground arith)

abbrev pub refunds : List CompensationStep → Bool
refunds [] = false
refunds (refund_payment ∷ steps) = true
refunds (step ∷ steps) = refunds steps

abbrev pub omits_refund : OrderStatus → Bool
omits_refund slot_reserved = true
omits_refund queue_assigned = true
omits_refund batch_wait = true
omits_refund _ = false

paid_before :
    (s : OrderStatus)
    → omits_refund s ≡ true
    → (is_cancellable s ≡ true)
      × (refunds (get_compensation_steps s) ≡ false)
      × (on_main_line s ≡ true)
      × (2 ≤ stage s)
unfolding is_cancellable get_compensation_steps
paid_before created h = cc
paid_before s h = ground arith

-- In SLOT_RESERVED, QUEUE_ASSIGNED and BATCH_WAIT an order can be cancelled and has entered
-- PAYMENT_CONFIRMED on every sequence that `validate_sequence` accepts, and yet the compensation steps
-- of the state hold no refund.
pub refunds-omits_refund :
    (ts : Steps)
    → validate_sequence default ts ≡ []
    → omits_refund (reached created ts) ≡ true
    → (is_cancellable (reached created ts) ≡ true)
      × (contains (visited ts) payment_confirmed ≡ true)
      × (refunds (get_compensation_steps (reached created ts)) ≡ false)
refunds-omits_refund ts h omitted =
    let p = paid_before (reached created ts) omitted in
    (p.0, contains-visited payment_confirmed ts h refl p.2 p.3, p.1)
