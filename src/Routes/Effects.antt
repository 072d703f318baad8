-- ===== src/Routes/Effects.antt =====
-- What the calls send to Kafka and Redis against what they commit
-- (services/order-service/app/routes/orders.py).
use hot_sot.Base.{
  and-left, and-right, ℕ, ◌≡◌, refl, sym, ap, Bool, true, false, not, ◌&&◌, Option, none, some,
  List, [], ◌∷◌, ◌++◌, ◌==◌, if◌then◌else◌, subst, arith,
}
use hot_sot.Order.Status.{OrderStatus, valid_transitions}
use hot_sot.Order.Machine.{can_transition, transition, has_guard_rule, evaluate_guard}
use hot_sot.Routes.Store.{
  UserTier, Item, Order, Answers, Request, Answer, done, fails, Failure, never, at_first, at_second,
  at_commit,
}
use hot_sot.Routes.Payment.{create_order}
use hot_sot.Routes.Service.{
  handler, Store, Call, open_request, commit, committed, serve, serves, create, run_on, after_check,
  Response, http, check_idempotency, is_expire, newer, has_failed,
}
use hot_sot.Routes.Induction.{every, serves-keeps}
use hot_sot.Routes.Sends.{copied, Sends, handler-Sends, NoFive, handler-NoFive}

-- What an error answer leaves as it was: the row, the log, the cached responses, what was published, and
-- the copy of the state in Redis. The lock calls may have grown.
abbrev pub Untouched : Store → Store → Type 0
Untouched st st' =
    (st'.order ≡ st.order)
    × (st'.events ≡ st.events)
    × (st'.cache ≡ st.cache)
    × (st'.published ≡ st.published)
    × (st'.cached_status ≡ st.cached_status)

append-nil {ℓ} : {A : Type ℓ} (xs ys : List A) → ys ≡ [] → xs ++ ys ≡ xs
append-nil [] ys e = e
append-nil (x ∷ xs) ys e = ap (λ t. x ∷ t) (append-nil xs ys e)

committed-code :
    (c : Call) (st : Store) (r : Request) (x : Failure) (code : ℕ)
    → (code == 500) ≡ false
    → (committed x c st r).0 ≡ http code
    → Untouched st (committed x c st r).1
committed-code c st r never code n e = cc
committed-code c st r at_first code n e = cc
committed-code c st r at_second code n e = cc
committed-code c st r at_commit code n e = cc

commit-Untouched :
    (c : Call) (st : Store) (x : Answer (Unit {0}) × Request) (code : ℕ)
    → Sends c.answers x
    → (code == 500) ≡ false
    → (commit c st x).0 ≡ http code
    → Untouched st (commit c st x).1
commit-Untouched c st (fails code', r) code s n e =
    let sent = s (cc) in
    (
      refl,
      refl,
      refl,
      append-nil st.published r.published sent.0,
      ap (λ x. newer x st.cached_status) sent.1,
    )
commit-Untouched c st (done u, r) code s n e = committed-code c st r c.answers.db_fails code n e

if-Untouched :
    (b : Bool) (x : Response × Store) (st : Store) (code : ℕ)
    → (x.0 ≡ http code → Untouched st x.1)
    → (if b then x else (http 404, st)).0 ≡ http code
    → Untouched st (if b then x else (http 404, st)).1
if-Untouched true x st code h e = h e
if-Untouched false x st code h e = (refl, refl, refl, refl, refl)

run_on-Untouched :
    (c : Call) (st : Store) (x : Option Order) (code : ℕ)
    → (code == 500) ≡ false
    → (run_on c st x).0 ≡ http code
    → Untouched st (run_on c st x).1
run_on-Untouched c st none code n e = (refl, refl, refl, refl, refl)
run_on-Untouched c st (some o) code n e =
    let y = handler c.route c.answers (open_request o) in
    if-Untouched (o.tenant_id == c.tenant) (commit c st y) st code
      (commit-Untouched c st y code (handler-Sends c.route c.answers o) n) e

after_check-Untouched :
    (c : Call) (st : Store) (x : Option Order) (code : ℕ)
    → (code == 500) ≡ false
    → (after_check c st x).0 ≡ http code
    → Untouched st (after_check c st x).1
after_check-Untouched c st (some response) code n e = cc
after_check-Untouched c st none code n e = run_on-Untouched c st st.order code n e

-- A call that answers with an error other than the 500 of a failing database, at whatever step of its
-- handler, leaves the row, the event log, the stored responses, the published events and the copy of the state
-- in Redis as they were.
pub serve-Untouched :
    (c : Call) (st : Store) (code : ℕ)
    → (code == 500) ≡ false
    → (serve c st).0 ≡ http code
    → Untouched st (serve c st).1
unfolding serve
serve-Untouched c st code n e =
    after_check-Untouched c st (if is_expire c.route then none else check_idempotency c st.cache)
      code n e

-- Whether Redis is there for a call and takes its writes, and the database takes what it is given.
abbrev all_up : Call → Bool
all_up c = (c.answers.has_redis && c.answers.writes) && not (has_failed c.answers.db_fails)

abbrev CopyOf : Option (OrderStatus × ℕ) → Option Order → Type 0
CopyOf s none = Unit
CopyOf s (some o) = copied s ≡ some o.status

-- The last copy of the state that Redis took is the state of the row.
abbrev pub Mirrors : Store → Type 0
Mirrors st = CopyOf st.cached_status st.order

committed-Mirrors :
    (c : Call) (st : Store) (r : Request) (x : Failure)
    → not (has_failed x) ≡ true
    → copied r.cached_status ≡ some r.order.status
    → Mirrors (committed x c st r).1
committed-Mirrors c st r never h s = ground (arith, s)
committed-Mirrors c st r at_first h s = absurd cc
committed-Mirrors c st r at_second h s = absurd cc
committed-Mirrors c st r at_commit h s = absurd cc

commit-Mirrors :
    (c : Call) (st : Store) (x : Answer (Unit {0}) × Request)
    → all_up c ≡ true
    → Sends c.answers x
    → NoFive x
    → Mirrors st
    → Mirrors (commit c st x).1
commit-Mirrors c st (fails code, r) up s n m =
    subst (λ x. CopyOf (newer x st.cached_status) st.order) (sym (s n).1) m
commit-Mirrors c st (done u, r) up s n m =
    committed-Mirrors c st r c.answers.db_fails
      (and-right (c.answers.has_redis && c.answers.writes) (not (has_failed c.answers.db_fails)) up)
      (s (
        and-left (c.answers.has_redis && c.answers.writes) (not (has_failed c.answers.db_fails))
          up))

create-Mirrors :
    (tenant : ℕ) (tier : UserTier) (items : List Item) (total key : ℕ) (a : Answers) (st : Store)
    → (a.has_redis && a.writes) ≡ true
    → create tenant tier items total key a ≡ some st
    → Mirrors st
unfolding create create_order transition can_transition valid_transitions has_guard_rule
    evaluate_guard
create-Mirrors tenant tier items total key a st up e = ground arith

-- While Redis is there and takes every write, and the database takes what it is given, the last copy of the
-- state written to Redis, which expires 600 seconds after the write, is the state of the row after every
-- sequence of calls on an order.
pub serves-Mirrors :
    (cs : List Call) (tenant : ℕ) (tier : UserTier) (items : List Item) (total key : ℕ)
    (a : Answers) (st : Store)
    → (a.has_redis && a.writes) ≡ true
    → create tenant tier items total key a ≡ some st
    → every all_up cs ≡ true
    → Mirrors (serves cs st)
serves-Mirrors cs tenant tier items total key a st up e g =
    serves-keeps Mirrors all_up
      (λ c st o g e m.
        commit-Mirrors c st (handler c.route c.answers (open_request o)) g
          (handler-Sends c.route c.answers o)
          (handler-NoFive c.route c.answers o (
            and-right (c.answers.has_redis && c.answers.writes)
              (not (has_failed c.answers.db_fails)) g))
          m)
      cs st g (create-Mirrors tenant tier items total key a st up e)
