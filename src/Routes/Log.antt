-- ===== src/Routes/Log.antt =====
-- The whole event log of an order against its row, over every sequence of calls
-- (services/order-service/app/routes/orders.py).
use hot_sot.Base.{ℕ, ◌≡◌, refl, subst, true, Option, none, some, List, [], ◌∷◌, ◌++◌, arith}
use hot_sot.Order.Status.{OrderStatus, valid_transitions}
use hot_sot.Order.Machine.{
  can_transition, transition, has_guard_rule, evaluate_guard, validate_sequence,
}
use hot_sot.Order.Sequence.{Steps, Chain, reached, validate_sequence_iff}
use hot_sot.Order.Tables.{default}
use hot_sot.Routes.Store.{UserTier, Item, Order, EventType, Answers, Request, Answer, done, fails}
use hot_sot.Routes.Payment.{create_order}
use hot_sot.Routes.Service.{Store, Call, open_request, commit, serves, create, handler}
use hot_sot.Routes.Audit.{entered, allows, after, Trace, Trace-append}
use hot_sot.Routes.Induction.{committed-keeps, any_call, every-any_call, serves-keeps}
use hot_sot.Routes.Replay.{Moves, handler-Moves}

-- The steps that a log records from a state on.
abbrev steps_from : OrderStatus → List EventType → Steps
steps_from s [] = []
steps_from s (e ∷ es) = (s, after s (entered e)) ∷ steps_from (after s (entered e)) es

abbrev pub steps_of : List EventType → Steps
steps_of [] = []
steps_of (e ∷ es) = steps_from OrderStatus.created es

-- A log starts with the creation and leads to the state by transitions that the table allows.
abbrev Begun : List EventType → OrderStatus → Type 0
Begun [] s = ⊥
Begun (e ∷ es) s = (entered e ≡ some OrderStatus.created) × Trace OrderStatus.created es s

Begun-append :
    (s t : OrderStatus) (es fs : List EventType) → Begun es s → Trace s fs t → Begun (es ++ fs) t
Begun-append s t [] fs b q = elim b [ ]
Begun-append s t (e ∷ es) fs b q = (b.0, Trace-append OrderStatus.created s t es fs b.1 q)

abbrev RowMatches : Option Order → List EventType → Type 0
RowMatches none es = Unit
RowMatches (some o) es = Begun es o.status

-- The log of the order, if it is there, leads to the state of its row.
abbrev Matches : Store → Type 0
Matches st = RowMatches st.order st.events

commit-Matches :
    (c : Call) (st : Store) (o : Order) (x : Answer (Unit {0}) × Request)
    → st.order ≡ some o
    → Matches st
    → Moves o x
    → Matches (commit c st x).1
commit-Matches c st o (fails code, r) e m p = m
commit-Matches c st o (done u, r) e m p =
    committed-keeps Matches c st r c.answers.db_fails
      (Begun-append o.status r.order.status st.events r.persisted
        (subst (λ x. RowMatches x st.events) e m) p)
      m

serves-Matches : (cs : List Call) (st : Store) → Matches st → Matches (serves cs st)
serves-Matches cs st m =
    serves-keeps Matches any_call
      (λ c st o g e m.
        commit-Matches c st o (handler c.route c.answers (open_request o)) e m
          (handler-Moves c.route c.answers o))
      cs st (every-any_call cs) m

create-Matches :
    (tenant : ℕ) (tier : UserTier) (items : List Item) (total key : ℕ) (a : Answers) (st : Store)
    → create tenant tier items total key a ≡ some st
    → Matches st
unfolding create create_order transition can_transition valid_transitions has_guard_rule
    evaluate_guard
create-Matches tenant tier items total key a st e = ground arith

allowed-step :
    (s : OrderStatus) (x : Option OrderStatus)
    → allows s x ≡ true
    → can_transition default s (after s x) ≡ true
allowed-step s none h = ground arith
allowed-step s (some t) h = h

Trace-Chain :
    (s t : OrderStatus) (es : List EventType)
    → Trace s es t
    → Chain default s (steps_from s es) × (reached s (steps_from s es) ≡ t)
Trace-Chain s t [] p = (tt, p)
Trace-Chain s t (e ∷ es) p =
    let rest = Trace-Chain (after s (entered e)) t es p.1 in
    ((refl, allowed-step s (entered e) p.0, rest.0), rest.1)

-- What the row and the log of an order say of each other: the log starts with the creation, the state
-- machine accepts the steps that it records, and they end in the state of the row.
abbrev pub Audited : Option Order → List EventType → Type 0
Audited none es = Unit
Audited (some o) es =
    (validate_sequence default (steps_of es) ≡ [])
    × (reached OrderStatus.created (steps_of es) ≡ o.status)

Begun-Audited : (o : Order) (es : List EventType) → Begun es o.status → Audited (some o) es
Begun-Audited o [] b = elim b [ ]
Begun-Audited o (e ∷ es) b =
    let p = Trace-Chain OrderStatus.created o.status es b.1 in
    ((validate_sequence_iff default (steps_from OrderStatus.created es)).1 p.0, p.1)

RowMatches-Audited : (x : Option Order) (es : List EventType) → RowMatches x es → Audited x es
RowMatches-Audited none es m = tt
RowMatches-Audited (some o) es m = Begun-Audited o es m

-- After every sequence of calls on an order that `create_order` made, the committed event log is accepted
-- by `validate_sequence` as steps from CREATED, and these steps end in the state of the row: the routes
-- refine the state machine.
pub serves-Audited :
    (cs : List Call) (tenant : ℕ) (tier : UserTier) (items : List Item) (total key : ℕ)
    (a : Answers) (st : Store)
    → create tenant tier items total key a ≡ some st
    → Audited (serves cs st).order (serves cs st).events
serves-Audited cs tenant tier items total key a st e =
    RowMatches-Audited (serves cs st).order (serves cs st).events
      (serves-Matches cs st (create-Matches tenant tier items total key a st e))
