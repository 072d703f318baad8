-- ===== src/Gateway/Http.antt =====
-- `RazorpayGateway._make_request` of shared/payment_gateway.py. What each attempt at a request meets is
-- an argument, and a reply comes with the number of requests sent and the seconds slept.
use hot_sot.Base.{ℕ, zero, suc, ◌+◌, ◌^◌, Bool, Option, none, some, leb, ◌==◌, if◌then◌else◌}
use hot_sot.Base.Int.{ℤ}

pub data Method : Type 0 where
  post get other_method : Method

-- The values of "status" that the gateway itself writes, and any other by a number.
pub data Status : Type 0 where
  order_created payment_captured processed mock : Status
  given : ℕ → Status

-- A JSON object: the empty one, or one with what it says of amount and status, by its id.
pub data Body : Type 0 where
  empty_object : Body
  object : ℕ → Option ℤ → Option Status → Body

-- An answer: its status code, whether its content type is JSON, and its body where it is readable JSON.
pub record Response : Type 0 where
  pub status_code : ℕ
  pub says_json : Bool
  pub json : Option Body

-- `transport_error` is any other `httpx.HTTPError`.
pub data Attempt : Type 0 where
  answered : Response → Attempt
  timeout transport_error : Attempt

pub data Failure : Type 0 where
  unsupported_method unreadable_json request_timeout http_error retries_exceeded : Failure
  invalid_operation not_an_integer : Failure
  api_error : ℕ → Option Body → Failure

pub data Reply : Type 0 where
  returns : Body → Reply
  raises : Failure → Reply

-- How one pass through the loop ends. A retry comes with its sleep and the new `last_error`.
pub data Pass : Type 0 where
  finished : Reply → Pass
  retried : ℕ → Option Failure → Pass

abbrev pub read_json : Option Body → Reply
read_json none = raises unreadable_json
read_json (some b) = returns b

-- The error data is read only if the content type is JSON.
abbrev pub refused : Response → Reply
refused r =
    if r.says_json
    then elim r.json [
      | none ↦ raises unreadable_json
      | some b ↦ raises (api_error r.status_code (some b))
    ]
    else raises (api_error r.status_code none)

-- The body of the loop, for attempt number `attempt`. A status below 400 other than 200 passes every
-- test, and the loop goes on.
unfoldable pub one_pass : ℕ → Option Failure → Attempt → Pass
one_pass attempt last_error (answered r) =
    if r.status_code == 200
    then finished (read_json r.json)
    else if r.status_code == 429
    then retried (2 ^ (attempt + 2)) last_error
    else if leb 400 r.status_code
    then finished (refused r)
    else retried 0 last_error
one_pass attempt last_error timeout = retried (2 ^ attempt) (some request_timeout)
one_pass attempt last_error transport_error = retried (2 ^ attempt) (some http_error)

pub record Outcome : Type 0 where
  pub reply : Reply
  pub sent : ℕ
  pub slept : ℕ

abbrev pub exceeded : Option Failure → Failure
exceeded none = retries_exceeded
exceeded (some e) = e

-- The loop with `left` attempts to go, the next of which is number `attempt`.
unfoldable pub retry : (ℕ → Attempt) → ℕ → ℕ → Option Failure → Outcome
unfolding one_pass
retry http zero attempt last_error = record {
  reply = raises (exceeded last_error);
  sent = 0;
  slept = 0;
}
retry http (suc left) attempt last_error = elim (one_pass attempt last_error (http attempt)) [
  | finished r ↦ record { reply = r; sent = 1; slept = 0 }
  | retried wait e ↦
      let rest = retry http left (suc attempt) e in
      record { reply = rest.reply; sent = suc rest.sent; slept = wait + rest.slept }
]

-- `_make_request` of a configured gateway.
unfoldable pub make_request : Method → (ℕ → Attempt) → ℕ → Outcome
make_request other_method http zero = record {
  reply = raises retries_exceeded;
  sent = 0;
  slept = 0;
}
make_request other_method http (suc n) = record {
  reply = raises unsupported_method;
  sent = 0;
  slept = 0;
}
make_request post http max_retries = retry http max_retries 0 none
make_request get http max_retries = retry http max_retries 0 none
