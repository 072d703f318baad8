-- ===== src/Gateway/Api.antt =====
-- `RazorpayGateway` of shared/payment_gateway.py: the conversion to paise, the idempotency store and
-- the operations that charge, capture and refund. Idempotency keys are numbers. The identifiers of
-- payments, which stand in the path, hold none of the words that the mock responses look for.
use hot_sot.Base.{
  ℕ, Bool, true, false, not, ◌&&◌, ◌||◌, ◌⊎◌, inl, inr, Option, none, some, List, [], ◌∷◌, ◌==◌,
  if◌then◌else◌,
}
use hot_sot.Base.Int.{ℤ}
use hot_sot.Money.Rounding.{Quantized, paise, not_a_number, invalid}
use hot_sot.Gateway.Http.{
  post, order_created, payment_captured, mock, Body, empty_object, object, Attempt, Failure,
  invalid_operation, not_an_integer, Reply, returns, raises, Outcome, make_request,
}

pub data PaymentState : Type 0 where
  created authorized captured refunded partially_refunded failed : PaymentState

-- `validate_state_transition`, by the sets of VALID_TRANSITIONS.
unfoldable pub validate_state_transition : PaymentState → PaymentState → Bool
validate_state_transition created authorized = true
validate_state_transition created failed = true
validate_state_transition authorized captured = true
validate_state_transition authorized failed = true
validate_state_transition captured refunded = true
validate_state_transition captured partially_refunded = true
validate_state_transition partially_refunded refunded = true
validate_state_transition partially_refunded partially_refunded = true
validate_state_transition _ _ = false

-- `_to_paise`, on the whole paise that `quantize` leaves.
unfoldable pub to_paise : Quantized → Failure ⊎ ℤ
to_paise (paise a) = inr a
to_paise not_a_number = inl not_an_integer
to_paise invalid = inl invalid_operation

-- The dict `_idempotency_store`, without its timestamps.
abbrev pub Store : Type 0
Store = List (ℕ × Body)

abbrev pub find : ℕ → Store → Option Body
find k [] = none
find k ((j, b) ∷ s) = if k == j then some b else find k s

abbrev pub insert : ℕ → Body → Store → Store
insert k b [] = (k, b) ∷ []
insert k b ((j, old) ∷ s) =
    let rest = insert k b s in if k == j then (k, b) ∷ s else (j, old) ∷ rest

pub record RazorpayGateway : Type 0 where
  pub has_key_id : Bool
  pub has_key_secret : Bool
  pub test_mode : Bool
  pub idempotency_store : Store

-- `RazorpayGateway(...)`, after the environment has been read.
abbrev pub new : Bool → Bool → Bool → RazorpayGateway
new has_key_id has_key_secret test_mode = record {
  has_key_id = has_key_id;
  has_key_secret = has_key_secret;
  test_mode = test_mode || not has_key_id;
  idempotency_store = [];
}

abbrev pub is_configured : RazorpayGateway → Bool
is_configured g = g.has_key_id && g.has_key_secret

-- `create_order`, `capture_payment` and `refund` by the path that they post to.
pub data Operation : Type 0 where
  create_order capture_payment refund : Operation

-- `_mock_response`, with the random id; "/payments/…/refund" does not hold the word "refunds".
unfoldable pub mock_response : Operation → ℤ → ℕ → Body
mock_response create_order amount id = object id (some amount) (some order_created)
mock_response capture_payment amount id = object id (some amount) (some payment_captured)
mock_response refund amount id = object id none (some mock)

-- `_make_request` of the operations: the provider is asked only if both keys are there.
unfoldable pub request : RazorpayGateway → Operation → ℤ → ℕ → (ℕ → Attempt) → Outcome
request g op amount id http =
    if is_configured g
    then make_request post http 3
    else record { reply = returns (mock_response op amount id); sent = 0; slept = 0 }

-- An empty result is false in Python, and its request is made again.
abbrev pub usable : Option Body → Option Body
usable none = none
usable (some empty_object) = none
usable (some (object i a s)) = some (object i a s)

-- `_check_idempotency` and the test of its result; the parameters of the call are not compared.
unfoldable pub check_idempotency : RazorpayGateway → Option ℕ → Option Body
check_idempotency g none = none
check_idempotency g (some k) = usable (find k g.idempotency_store)

abbrev pub store_idempotency : RazorpayGateway → Option ℕ → Reply → RazorpayGateway
store_idempotency g none r = g
store_idempotency g (some k) (returns b) = record g {
  idempotency_store = insert k b g.idempotency_store;
}
store_idempotency g (some k) (raises e) = g

-- With the cached result, or with the outcome of the request, which then counts.
abbrev pub answer : RazorpayGateway → Option ℕ → Outcome → Option Body → RazorpayGateway × Outcome
answer g key outcome (some cached) = (g, record { reply = returns cached; sent = 0; slept = 0 })
answer g key outcome none = (store_idempotency g key outcome.reply, outcome)

-- From the idempotency check on.
unfoldable pub once :
    RazorpayGateway → Option ℕ → Operation → ℤ → ℕ → (ℕ → Attempt) → RazorpayGateway × Outcome
once g key op amount id http = answer g key (request g op amount id http) (check_idempotency g key)

-- A call of an operation: its idempotency key, its amount, the id of a mock response, and what the
-- attempts at its request meet.
pub record Call : Type 0 where
  pub operation : Operation
  pub amount : Quantized
  pub mock_id : ℕ
  pub http : ℕ → Attempt

abbrev pub with_amount : RazorpayGateway → Option ℕ → Call → Failure ⊎ ℤ → RazorpayGateway × Outcome
with_amount g key c (inl e) = (g, record { reply = raises e; sent = 0; slept = 0 })
with_amount g key c (inr amount) = once g key c.operation amount c.mock_id c.http

-- The three operations.
unfoldable pub perform : RazorpayGateway → Option ℕ → Call → RazorpayGateway × Outcome
unfolding to_paise
perform g key c = with_amount g key c (to_paise c.amount)

-- `verify_webhook_signature`; the digest of secret and payload is the hmac module's.
unfoldable pub verify_webhook_signature : (ℕ → ℕ → ℕ) → Option ℕ → ℕ → ℕ → Bool
verify_webhook_signature digest none payload_body signature = false
verify_webhook_signature digest (some secret) payload_body signature =
    digest secret payload_body == signature
