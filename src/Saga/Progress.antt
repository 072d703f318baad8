-- ===== src/Saga/Progress.antt =====
-- How a saga ends
-- (services/order-service/app/core/saga.py).
use Prim.Native.String.{String}
use hot_sot.Base.{
  suc, ◌+◌, ◌<◌, ◌≡◌, ap, ◌∙◌, List, [], ◌∷◌, leb, if◌then◌else◌, length, arith, Bool-cases, inl,
  inr,
}
use hot_sot.Saga.Definition.{SagaDefinition}
use hot_sot.Saga.Engine.{Saga, completed, succeed}

-- The saga after a success of each name, in order, and the answers.
unfoldable pub successes : SagaDefinition → Saga → List String → Saga
successes d s [] = s
successes d s (n ∷ names) = successes d (succeed d s n).saga names

succeed-index :
    (d : SagaDefinition) (s : Saga) (n : String)
    → (succeed d s n).saga.current_step_index ≡ suc s.current_step_index
unfolding succeed
succeed-index d s n = ground arith

succeed-status :
    (d : SagaDefinition) (s : Saga) (n : String)
    → (succeed d s n).saga.status
      ≡ (if leb (length d.steps) (suc s.current_step_index) then completed else s.status)
unfolding succeed
succeed-status d s n = ground arith

successes-completed :
    (d : SagaDefinition) (s : Saga) (names : List String)
    → s.status ≡ completed
    → (successes d s names).status ≡ completed
unfolding successes
successes-completed d s [] h = h
successes-completed d s (n ∷ names) h =
    successes-completed d (succeed d s n).saga names (succeed-status d s n ∙ ground (arith, h))

-- By successes alone, whatever steps they name, a saga with a step left becomes COMPLETED exactly with
-- the success that is the last by number, and keeps its status before: also if an earlier failure had
-- left it COMPENSATED.
pub successes-status :
    (d : SagaDefinition) (s : Saga) (names : List String)
    → s.current_step_index < length d.steps
    → (successes d s names).status
      ≡ (if leb (length d.steps) (s.current_step_index + length names) then completed else s.status)
unfolding successes
successes-status d s [] left = ground arith
successes-status d s (n ∷ names) left =
    let i = succeed-index d s n in
    elim (Bool-cases (leb (length d.steps) (suc s.current_step_index))) [
      | inl all ↦
          successes-completed d (succeed d s n).saga names
            (succeed-status d s n ∙ ap (λ b. if b then completed else s.status) all)
          ∙ ground (arith, all)
      | inr more ↦
          let st : (succeed d s n).saga.status ≡ s.status =
            succeed-status d s n ∙ ap (λ b. if b then completed else s.status) more in
          successes-status d (succeed d s n).saga names (ground (arith, i, more))
          ∙ ground (arith, i, st)
    ]
