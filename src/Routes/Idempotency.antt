-- ===== src/Routes/Idempotency.antt =====
-- Idempotency keys (services/order-service/app/routes/orders.py).
use hot_sot.Base.{
  ℕ, ◌≡◌, ap, ◌∙◌, Bool, true, false, not, ◌&&◌, Option, none, some, List, ◌==◌, if◌then◌else◌,
  arith, ==_iff,
}
use hot_sot.Routes.Store.{
  Order, Request, Answer, done, fails, Failure, never, at_first, at_second, at_commit,
}
use hot_sot.Routes.Service.{
  handler, Store, Call, open_request, commit, committed, serve, serves, run_on, after_check,
  Response, returned, http, check_idempotency, store_idempotency, is_expire, find, stored,
}
use hot_sot.Routes.Induction.{committed-keeps, every, serves-keeps}

-- Whether a call carries another key than this, or none.
abbrev other_key : ℕ → Call → Bool
other_key k c = elim c.key [ none ↦ true | some j ↦ not (k == j) ]

-- The response that the cache holds for a key.
abbrev Holds : ℕ → Order → Store → Type 0
Holds k o st = find k st.cache ≡ some o

find-other :
    (k : ℕ) (c : Call) (r : Order) (cache : List (ℕ × Order))
    → other_key k c ≡ true
    → find k (store_idempotency c r cache) ≡ find k cache
unfolding store_idempotency
find-other k c r cache h = ground arith

commit-Holds :
    (k : ℕ) (o : Order) (c : Call) (st : Store) (x : Answer (Unit {0}) × Request)
    → other_key k c ≡ true
    → Holds k o st
    → Holds k o (commit c st x).1
commit-Holds k o c st (fails code, r) h m = m
commit-Holds k o c st (done u, r) h m =
    let kept : find k (stored c st r.order) ≡ some o =
      ground (arith, find-other k c r.order st.cache h) in
    committed-keeps (Holds k o) c st r c.answers.db_fails kept kept

serves-Holds :
    (k : ℕ) (o : Order) (cs : List Call) (st : Store)
    → every (other_key k) cs ≡ true
    → Holds k o st
    → Holds k o (serves cs st)
serves-Holds k o cs st h m =
    serves-keeps (Holds k o) (other_key k)
      (λ c st row g e m. commit-Holds k o c st (handler c.route c.answers (open_request row)) g m)
      cs st h m

-- A call under a key, whose response Redis takes and gives.
abbrev keyed : ℕ → Call → Bool
keyed k c =
    (elim c.key [ none ↦ false | some j ↦ k == j ])
    && not (is_expire c.route)
    && c.answers.has_redis
    && c.answers.reads
    && c.answers.writes

find-stored :
    (k : ℕ) (c : Call) (r : Order) (cache : List (ℕ × Order))
    → keyed k c ≡ true
    → find k (if is_expire c.route then cache else store_idempotency c r cache) ≡ some r
unfolding store_idempotency
find-stored k c r cache g = ground arith

find-checked :
    (k : ℕ) (c : Call) (cache : List (ℕ × Order))
    → keyed k c ≡ true
    → (if is_expire c.route then none else check_idempotency c cache) ≡ find k cache
unfolding check_idempotency
find-checked k c cache g = ground (arith, ==_iff k k)

committed-keyed :
    (k : ℕ) (c : Call) (st : Store) (r : Request) (x : Failure) (o : Order)
    → keyed k c ≡ true
    → (committed x c st r).0 ≡ returned o
    → Holds k o (committed x c st r).1
committed-keyed k c st r never o g e = let s = find-stored k c r.order st.cache g in cc
committed-keyed k c st r at_first o g e = cc
committed-keyed k c st r at_second o g e = cc
committed-keyed k c st r at_commit o g e = cc

commit-keyed :
    (k : ℕ) (c : Call) (st : Store) (x : Answer (Unit {0}) × Request) (o : Order)
    → keyed k c ≡ true
    → (commit c st x).0 ≡ returned o
    → Holds k o (commit c st x).1
commit-keyed k c st (fails code, r) o g e = cc
commit-keyed k c st (done u, r) o g e = committed-keyed k c st r c.answers.db_fails o g e

if-keyed :
    (k : ℕ) (b : Bool) (x : Response × Store) (st : Store) (o : Order)
    → (x.0 ≡ returned o → Holds k o x.1)
    → (if b then x else (http 404, st)).0 ≡ returned o
    → Holds k o (if b then x else (http 404, st)).1
if-keyed k true x st o h e = h e
if-keyed k false x st o h e = cc

run_on-keyed :
    (k : ℕ) (c : Call) (st : Store) (x : Option Order) (o : Order)
    → keyed k c ≡ true
    → (run_on c st x).0 ≡ returned o
    → Holds k o (run_on c st x).1
run_on-keyed k c st none o g e = cc
run_on-keyed k c st (some row) o g e =
    let y = handler c.route c.answers (open_request row) in
    if-keyed k (row.tenant_id == c.tenant) (commit c st y) st o (commit-keyed k c st y o g) e

after_check-keyed :
    (k : ℕ) (c : Call) (st : Store) (x : Option Order) (o : Order)
    → keyed k c ≡ true
    → x ≡ find k st.cache
    → (after_check c st x).0 ≡ returned o
    → Holds k o (after_check c st x).1
after_check-keyed k c st (some response) o g f e = cc
after_check-keyed k c st none o g f e = run_on-keyed k c st st.order o g e

serve-keyed :
    (k : ℕ) (c : Call) (st : Store) (o : Order)
    → keyed k c ≡ true
    → (serve c st).0 ≡ returned o
    → Holds k o (serve c st).1
unfolding serve
serve-keyed k c st o g e =
    after_check-keyed k c st (if is_expire c.route then none else check_idempotency c st.cache) o g
      (find-checked k c st.cache g) e

serve-held :
    (k : ℕ) (c : Call) (st : Store) (o : Order)
    → keyed k c ≡ true
    → Holds k o st
    → serve c st ≡ (returned o, st)
unfolding serve
serve-held k c st o g h = ap (λ x. after_check c st x) (find-checked k c st.cache g ∙ h)

-- A second call under a key, on whatever route and by whatever tenant, gets the response of the first and
-- changes nothing, whatever calls under other keys came between, while Redis takes and gives the
-- responses of both; `expire_order` uses no key.
pub serve-again :
    (k : ℕ) (c c' : Call) (cs : List Call) (st : Store) (o : Order)
    → keyed k c ≡ true
    → keyed k c' ≡ true
    → every (other_key k) cs ≡ true
    → (serve c st).0 ≡ returned o
    → serve c' (serves cs (serve c st).1) ≡ (returned o, serves cs (serve c st).1)
serve-again k c c' cs st o g g' h e =
    serve-held k c' (serves cs (serve c st).1) o g'
      (serves-Holds k o cs (serve c st).1 h (serve-keyed k c st o g e))
