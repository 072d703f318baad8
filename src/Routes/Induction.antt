-- ===== src/Routes/Induction.antt =====
-- Induction over a sequence of calls: what every handler keeps in its transaction, the calls keep
-- (services/order-service/app/routes/orders.py).
use hot_sot.Base.{
  and-left, and-right, ◌≡◌, refl, Bool, true, false, ◌&&◌, Option, none, some, List, [], ◌∷◌, ◌==◌,
  if◌then◌else◌,
}
use hot_sot.Routes.Store.{Order, Request, Failure, never, at_first, at_second, at_commit}
use hot_sot.Routes.Service.{
  Store, Call, Response, http, handler, open_request, commit, committed, run_on, after_check,
  is_expire, check_idempotency, serve, serves,
}

-- Whether a test holds for every call.
abbrev pub every : (Call → Bool) → List Call → Bool
every good [] = true
every good (c ∷ cs) = good c && every good cs

abbrev pub any_call : Call → Bool
any_call c = true

pub every-any_call : (cs : List Call) → every any_call cs ≡ true
every-any_call [] = refl
every-any_call (c ∷ cs) = every-any_call cs

-- What holds after the commit of a handler that returned, and after its failure.
pub committed-keeps :
    (I : Store → Type 0) (c : Call) (st : Store) (r : Request) (x : Failure)
    → I (committed never c st r).1
    → I (committed at_commit c st r).1
    → I (committed x c st r).1
committed-keeps I c st r never p q = p
committed-keeps I c st r at_first p q = q
committed-keeps I c st r at_second p q = q
committed-keeps I c st r at_commit p q = q

-- A predicate on the store, and the calls whose handlers keep it.
module _ (I : Store → Type 0) (good : Call → Bool)
    (keeps : (c : Call) (st : Store) (o : Order)
      → good c ≡ true
      → st.order ≡ some o
      → I st
      → I (commit c st (handler c.route c.answers (open_request o))).1) where
  either : (b : Bool) (x y : Response × Store) → I x.1 → I y.1 → I (if b then x else y).1
  either true x y p q = p
  either false x y p q = q

  run_on-keeps :
      (c : Call) (st : Store) (x : Option Order)
      → good c ≡ true
      → st.order ≡ x
      → I st
      → I (run_on c st x).1
  run_on-keeps c st none g e i = i
  run_on-keeps c st (some o) g e i =
      either (o.tenant_id == c.tenant) (commit c st (handler c.route c.answers (open_request o)))
        (http 404, st) (keeps c st o g e i) i

  after_check-keeps :
      (c : Call) (st : Store) (x : Option Order) → good c ≡ true → I st → I (after_check c st x).1
  after_check-keeps c st (some response) g i = i
  after_check-keeps c st none g i = run_on-keeps c st st.order g refl i

  serve-keeps : (c : Call) (st : Store) → good c ≡ true → I st → I (serve c st).1
  unfolding serve
  serve-keeps c st g i =
      after_check-keeps c st (if is_expire c.route then none else check_idempotency c st.cache) g i

  pub serves-keeps : (cs : List Call) (st : Store) → every good cs ≡ true → I st → I (serves cs st)
  unfolding serves
  serves-keeps [] st g i = i
  serves-keeps (c ∷ cs) st g i =
      serves-keeps cs (serve c st).1 (and-right (good c) (every good cs) g)
        (serve-keeps c st (and-left (good c) (every good cs) g) i)
