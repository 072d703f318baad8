-- ===== src/Saga/Engine.antt =====
-- `SagaEngine` of services/order-service/app/core/saga.py. Identifiers are numbers and times are in
-- microseconds; the new identifier and the clock are arguments. What a compensation would emit, which
-- the source only logs, is part of the result.
use Prim.Native.String.{String}
use package.text.Mathlib.Text.{◌==◌ as str_eq}
use hot_sot.Base.{
  ℕ, suc, ◌+◌, ◌*◌, Bool, true, false, Option, none, some, List, [], ◌∷◌, ◌++◌, reverse, ltb, leb,
  ◌==◌, if◌then◌else◌, length, get_elem?,
}
use hot_sot.Saga.Definition.{SagaStep, SagaDefinition, SagaType, get_saga_definition}

-- COMPENSATING lasts only within `advance_saga`.
pub data SagaStatus : Type 0 where
  running completed compensating compensated : SagaStatus

pub record Saga : Type 0 where
  pub order_id : ℕ
  pub saga_type : SagaType
  pub tenant_id : ℕ
  pub current_step_index : ℕ
  pub steps_completed : List String
  pub steps_failed : List String
  pub status : SagaStatus
  pub timeout_at : ℕ

-- The dict `_active_sagas`, in insertion order.
abbrev pub Sagas : Type 0
Sagas = List (ℕ × Saga)

abbrev pub find : ℕ → Sagas → Option Saga
find k [] = none
find k ((j, s) ∷ rest) = if k == j then some s else find k rest

abbrev pub put : ℕ → Saga → Sagas → Sagas
put k s [] = (k, s) ∷ []
put k s ((j, old) ∷ rest) =
    let rest' = put k s rest in if k == j then (j, s) ∷ rest else (j, old) ∷ rest'

abbrev pub new_saga : ℕ → SagaType → ℕ → ℕ → SagaDefinition → Saga
new_saga order_id saga_type tenant_id now d = record {
  order_id = order_id;
  saga_type = saga_type;
  tenant_id = tenant_id;
  current_step_index = 0;
  steps_completed = [];
  steps_failed = [];
  status = running;
  timeout_at = now + d.timeout_seconds * 1_000_000;
}

-- `none` is the ValueError of an unknown type.
unfoldable pub start_saga : Sagas → ℕ → ℕ → SagaType → ℕ → ℕ → Option Sagas
start_saga sagas saga_id order_id saga_type tenant_id now = elim (get_saga_definition saga_type) [
  | none ↦ none
  | some d ↦ some (put saga_id (new_saga order_id saga_type tenant_id now d) sagas)
]

-- The first step of a name.
abbrev pub find_step : String → List SagaStep → Option SagaStep
find_step n [] = none
find_step n (s ∷ steps) = if str_eq s.name n then some s else find_step n steps

-- The event that compensates a completed step, if there is one.
abbrev pub compensation_of : Option SagaStep → List String
compensation_of none = []
compensation_of (some s) = if str_eq s.compensation "" then [] else s.compensation ∷ []

unfoldable pub compensations : SagaDefinition → List String → List String
compensations d [] = []
compensations d (n ∷ names) = compensation_of (find_step n d.steps) ++ compensations d names

-- `_compensate`: the saga and the events, the last completed step first.
unfoldable pub compensate : SagaDefinition → Saga → Saga × List String
compensate d s = (record s { status = compensated }, compensations d (reverse s.steps_completed))

-- What an advance returns and what it would emit.
pub record Advance : Type 0 where
  pub saga : Saga
  pub next : Option String
  pub emitted : List String

abbrev pub step_name : Option SagaStep → Option String
step_name none = none
step_name (some s) = some s.name

-- `advance_saga` with success. The status and the name of the step are not looked at.
unfoldable pub succeed : SagaDefinition → Saga → String → Advance
succeed d s name =
    let s' = record s {
      steps_completed = s.steps_completed ++ name ∷ [];
      current_step_index = suc s.current_step_index;
    } in
    if leb (length d.steps) (suc s.current_step_index)
    then record { saga = record s' { status = completed }; next = none; emitted = [] }
    else record {
      saga = s';
      next = step_name (get_elem? d.steps (suc s.current_step_index));
      emitted = [];
    }

-- `advance_saga` with a failure.
unfoldable pub fail : SagaDefinition → Saga → String → Advance
fail d s name =
    let s' = record s { steps_failed = s.steps_failed ++ name ∷ []; status = compensating } in
    let (s'', events) = compensate d s' in record { saga = s''; next = none; emitted = events }

abbrev pub advance : SagaDefinition → Saga → String → Bool → Advance
advance d s name success = if success then succeed d s name else fail d s name

abbrev pub advanced :
    ℕ → Sagas → Option SagaDefinition → Saga → String → Bool → Sagas × Option String
advanced k sagas none s name success = (sagas, none)
advanced k sagas (some d) s name success =
    let a = advance d s name success in (put k a.saga sagas, a.next)

abbrev pub advance_found : ℕ → Sagas → Option Saga → String → Bool → Sagas × Option String
advance_found k sagas none name success = (sagas, none)
advance_found k sagas (some s) name success =
    advanced k sagas (get_saga_definition s.saga_type) s name success

unfoldable pub advance_saga : Sagas → ℕ → String → Bool → Sagas × Option String
advance_saga sagas k name success = advance_found k sagas (find k sagas) name success

abbrev pub is_running : SagaStatus → Bool
is_running running = true
is_running completed = false
is_running compensating = false
is_running compensated = false

abbrev pub has_timed_out : ℕ → Saga → Bool
has_timed_out now s = if is_running s.status then ltb s.timeout_at now else false

abbrev pub end_saga : Option SagaDefinition → Saga → Saga
end_saga none s = s
end_saga (some d) s = (compensate d s).0

-- `check_timeouts`: the sagas, and the identifiers of those that timed out.
unfoldable pub check_timeouts : ℕ → Sagas → Sagas × List ℕ
check_timeouts now [] = ([], [])
check_timeouts now ((k, s) ∷ sagas) =
    let rest = check_timeouts now sagas in
    if has_timed_out now s
    then ((k, end_saga (get_saga_definition s.saga_type) s) ∷ rest.0, k ∷ rest.1)
    else ((k, s) ∷ rest.0, rest.1)
