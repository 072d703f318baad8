-- ===== src/Saga/Safety.antt =====
-- What a running saga may rely on
-- (services/order-service/app/core/saga.py).
use Prim.Native.String.{String}
use mathlib.Core.Option.{some-injective}
use hot_sot.Base.{
  ℕ, suc, ◌≤◌, ◌<◌, ◌≡◌, refl, ap, subst, Bool, true, false, Option, none, some, List, [], ◌∷◌, leb,
  ◌==◌, if◌then◌else◌, length, length-append, arith, Bool-cases, inl, inr,
}
use hot_sot.Saga.Definition.{
  SagaDefinition, SagaType, get_saga_definition, order_lifecycle_saga, refund_saga, expiry_saga,
  order_lifecycle, refund, expiry, unknown,
}
use hot_sot.Saga.Engine.{
  Saga, Sagas, running, completed, compensated, compensating, SagaStatus, is_running, put, find,
  start_saga, new_saga, succeed, fail, advance, compensate, advance_saga, advanced, advance_found,
  check_timeouts, end_saga, has_timed_out,
}

abbrev pub is_completed : SagaStatus → Bool
is_completed completed = true
is_completed running = false
is_completed compensating = false
is_completed compensated = false

abbrev pub is_settled : SagaStatus → Bool
is_settled compensating = false
is_settled running = true
is_settled completed = true
is_settled compensated = true

abbrev pub steps_of : Option SagaDefinition → ℕ
steps_of none = 0
steps_of (some d) = length d.steps

-- The invariant of one saga: its index counts its completed steps; while it runs, no step has failed
-- and a step is left; it is COMPLETED only with every step counted; it is never left COMPENSATING.
pub record IsValid (s : Saga) : Type 0 where
  pub counts : s.current_step_index ≡ length s.steps_completed
  pub unfailed : (if is_running s.status then length s.steps_failed else 0) ≡ 0
  pub unfinished :
      (if is_running s.status then suc s.current_step_index else 0)
      ≤ steps_of (get_saga_definition s.saga_type)
  pub finished :
      (if is_completed s.status then steps_of (get_saga_definition s.saga_type) else 0)
      ≤ s.current_step_index
  pub settled : is_settled s.status ≡ true

succeed-IsValid :
    (d : SagaDefinition) (s : Saga) (name : String)
    → get_saga_definition s.saga_type ≡ some d
    → IsValid s
    → IsValid (succeed d s name).saga
unfolding succeed
succeed-IsValid d s name h v =
    let same : steps_of (get_saga_definition s.saga_type) ≡ length d.steps = ap steps_of h in
    elim (Bool-cases (leb (length d.steps) (suc s.current_step_index))) [
      | inl all ↦ rw all (record {
        counts = omega (arith, v.counts, length-append s.steps_completed (name ∷ []));
        unfailed = refl;
        unfinished = omega arith;
        finished = ground (arith, same, all);
        settled = refl;
      })
      | inr more ↦ rw more (record {
        counts = omega (arith, v.counts, length-append s.steps_completed (name ∷ []));
        unfailed = v.unfailed;
        unfinished = ground (arith, same, more, v.unfinished);
        finished = ground (arith, v.finished);
        settled = v.settled;
      })
    ]

fail-IsValid :
    (d : SagaDefinition) (s : Saga) (name : String) → IsValid s → IsValid (fail d s name).saga
unfolding fail compensate
fail-IsValid d s name v = record {
  counts = v.counts;
  unfailed = refl;
  unfinished = omega arith;
  finished = omega arith;
  settled = refl;
}

end-IsValid : (o : Option SagaDefinition) (s : Saga) → IsValid s → IsValid (end_saga o s)
unfolding compensate
end-IsValid none s v = v
end-IsValid (some d) s v = record {
  counts = v.counts;
  unfailed = refl;
  unfinished = omega arith;
  finished = omega arith;
  settled = refl;
}

abbrev pub AllValid : Sagas → Type 0
AllValid [] = Unit
AllValid ((k, s) ∷ rest) = IsValid s × AllValid rest

put-AllValid :
    (k : ℕ) (s : Saga) (sagas : Sagas) → IsValid s → AllValid sagas → AllValid (put k s sagas)
put-AllValid k s [] v all = (v, tt)
put-AllValid k s ((j, old) ∷ rest) v (w, all) = elim (Bool-cases (k == j)) [
  | inl same ↦ rw same (v, all)
  | inr other ↦ rw other (w, put-AllValid k s rest v all)
]

find-IsValid :
    (k : ℕ) (s : Saga) (sagas : Sagas) → AllValid sagas → find k sagas ≡ some s → IsValid s
find-IsValid k s [] all h = absurd cc
find-IsValid k s ((j, old) ∷ rest) (w, all) h = elim (Bool-cases (k == j)) [
  | inl same ↦ subst IsValid (some-injective old s (rw same at h)) w
  | inr other ↦ find-IsValid k s rest all (rw other at h)
]

advance-IsValid :
    (d : SagaDefinition) (s : Saga) (name : String) (ok : Bool)
    → get_saga_definition s.saga_type ≡ some d
    → IsValid s
    → IsValid (advance d s name ok).saga
advance-IsValid d s name true h v = succeed-IsValid d s name h v
advance-IsValid d s name false h v = fail-IsValid d s name v

advanced-AllValid :
    (k : ℕ) (sagas : Sagas) (o : Option SagaDefinition) (s : Saga) (name : String) (ok : Bool)
    → get_saga_definition s.saga_type ≡ o
    → IsValid s
    → AllValid sagas
    → AllValid (advanced k sagas o s name ok).0
advanced-AllValid k sagas none s name ok h v all = all
advanced-AllValid k sagas (some d) s name ok h v all =
    put-AllValid k (advance d s name ok).saga sagas (advance-IsValid d s name ok h v) all

found-AllValid :
    (k : ℕ) (sagas : Sagas) (o : Option Saga) (name : String) (ok : Bool)
    → find k sagas ≡ o
    → AllValid sagas
    → AllValid (advance_found k sagas o name ok).0
found-AllValid k sagas none name ok h all = all
found-AllValid k sagas (some s) name ok h all =
    advanced-AllValid k sagas (get_saga_definition s.saga_type) s name ok refl
      (find-IsValid k s sagas all h) all

check-AllValid : (now : ℕ) (sagas : Sagas) → AllValid sagas → AllValid (check_timeouts now sagas).0
unfolding check_timeouts
check-AllValid now [] all = tt
check-AllValid now ((k, s) ∷ rest) (v, all) = elim (Bool-cases (has_timed_out now s)) [
  | inl late ↦
      rw late (end-IsValid (get_saga_definition s.saga_type) s v, check-AllValid now rest all)
  | inr early ↦ rw early (v, check-AllValid now rest all)
]

new-IsValid :
    (order tenant now : ℕ) (t : SagaType) (d : SagaDefinition)
    → get_saga_definition t ≡ some d
    → 0 < length d.steps
    → IsValid (new_saga order t tenant now d)
new-IsValid order tenant now t d h some_steps = record {
  counts = refl;
  unfailed = refl;
  unfinished = omega (arith, some_steps, ap steps_of h);
  finished = omega arith;
  settled = refl;
}

-- The methods of the engine that change its sagas; an unknown type raises and changes nothing.
pub data Call : Type 0 where
  start : ℕ → ℕ → SagaType → ℕ → ℕ → Call
  step : ℕ → String → Bool → Call
  check : ℕ → Call

abbrev pub or_same : Option Sagas → Sagas → Sagas
or_same none sagas = sagas
or_same (some new) sagas = new

unfoldable pub call : Sagas → Call → Sagas
call sagas (start k order t tenant now) = or_same (start_saga sagas k order t tenant now) sagas
call sagas (step k name success) = (advance_saga sagas k name success).0
call sagas (check now) = (check_timeouts now sagas).0

unfoldable pub calls : Sagas → List Call → Sagas
calls sagas [] = sagas
calls sagas (c ∷ cs) = calls (call sagas c) cs

call-AllValid : (sagas : Sagas) (c : Call) → AllValid sagas → AllValid (call sagas c)
unfolding call start_saga get_saga_definition advance_saga order_lifecycle_saga refund_saga
    expiry_saga
call-AllValid sagas (start k order order_lifecycle tenant now) all =
    put-AllValid k (new_saga order order_lifecycle tenant now order_lifecycle_saga) sagas
      (new-IsValid order tenant now order_lifecycle order_lifecycle_saga refl (omega arith)) all
call-AllValid sagas (start k order refund tenant now) all =
    put-AllValid k (new_saga order refund tenant now refund_saga) sagas
      (new-IsValid order tenant now refund refund_saga refl (omega arith)) all
call-AllValid sagas (start k order expiry tenant now) all =
    put-AllValid k (new_saga order expiry tenant now expiry_saga) sagas
      (new-IsValid order tenant now expiry expiry_saga refl (omega arith)) all
call-AllValid sagas (start k order unknown tenant now) all = all
call-AllValid sagas (step k name success) all =
    found-AllValid k sagas (find k sagas) name success refl all
call-AllValid sagas (check now) all = check-AllValid now sagas all

calls-AllValid : (sagas : Sagas) (cs : List Call) → AllValid sagas → AllValid (calls sagas cs)
unfolding calls
calls-AllValid sagas [] all = all
calls-AllValid sagas (c ∷ cs) all = calls-AllValid (call sagas c) cs (call-AllValid sagas c all)

-- Whatever calls a new engine gets, each of its sagas counts its completed steps; while one is RUNNING
-- none of its steps has failed and one is left; a COMPLETED one has counted every step of its
-- definition; and none is left COMPENSATING.
pub calls-IsValid : (cs : List Call) (k : ℕ) (s : Saga) → find k (calls [] cs) ≡ some s → IsValid s
calls-IsValid cs k s h = find-IsValid k s (calls [] cs) (calls-AllValid [] cs tt) h
