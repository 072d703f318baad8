-- ===== src/Gateway/Examples.antt =====
-- Requests to the payment provider, and the theorems on them at concrete inputs.
use hot_sot.Base.{
  ℕ, zero, suc, ◌+◌, ◌*◌, ◌^◌, ◌≤◌, ◌<◌, ◌≡◌, refl, true, false, Option, none, some, [], ◌∷◌, arith,
}
use hot_sot.Base.Int.{ℤ, pos}
use hot_sot.Money.Rounding.{paise}
use hot_sot.Gateway.Http.{
  post, Body, object, Attempt, answered, timeout, returns, raises, retries_exceeded, processed,
  mock, make_request, retry, one_pass,
}
use hot_sot.Gateway.Api.{
  new, refund, create_order, Call, perform, request, mock_response, once, to_paise,
  check_idempotency,
}
use hot_sot.Gateway.Retry.{decides, make_request_exhausted, IsRaised}
use hot_sot.Gateway.Once.{performs, perform_once}

-- An answer without content type.
abbrev plain : ℕ → Option Body → Attempt
plain code body = answered (record { status_code = code; says_json = false; json = body })

abbrev done : Body
done = object 5 (some (pos 50000)) (some processed)

-- A timeout, a 429, then 200.
abbrev third_answers : ℕ → Attempt
third_answers zero = timeout
third_answers (suc zero) = plain 429 none
third_answers (suc (suc n)) = plain 200 (some done)

abbrev created_only : ℕ → Attempt
created_only n = plain 201 (some done)

third_request :
    make_request post third_answers 3 ≡ record { reply = returns done; sent = 3; slept = 9 }
unfolding make_request retry one_pass
third_request = refl

-- Three posts, all of them accepted with 201.
created_thrice :
    make_request post created_only 3
    ≡ record { reply = raises retries_exceeded; sent = 3; slept = 0 }
unfolding make_request retry one_pass
created_thrice = refl

abbrev a_refund : ℤ → Call
a_refund amount = record {
  operation = refund;
  amount = paise amount;
  mock_id = 1;
  http = third_answers;
}

-- With both keys the provider is asked even in test mode.
test_mode_sends : (perform (new true true true) none (a_refund (pos 50000))).1.sent ≡ 3
unfolding perform to_paise once check_idempotency request make_request retry one_pass
test_mode_sends = refl

-- Without the keys a refund gets the response of no operation.
mock_refund :
    (perform (new false false true) none (a_refund (pos 50000))).1.reply
    ≡ returns (object 1 none (some mock))
unfolding perform to_paise once check_idempotency request mock_response
mock_refund = refl

none_below_2 : (j : ℕ) → j < 2 → decides (third_answers j) ≡ none
unfolding decides
none_below_2 zero h = refl
none_below_2 (suc zero) h = refl
none_below_2 (suc (suc j)) h = absurd (omega arith)

none_created : (j : ℕ) → j < 3 → decides (created_only j) ≡ none
unfolding decides
none_created j h = refl

make_request_exhausted_example :
    ((make_request post created_only 3).sent ≡ 3)
    × ((make_request post created_only 3).slept + 4 ≤ 4 * 2 ^ 3)
    × IsRaised (make_request post created_only 3).reply
make_request_exhausted_example = make_request_exhausted created_only 3 none_created

-- An order of another amount comes back under the key of the refund.
perform_once_example :
    let g =
      performs
        (perform (new true true false) (some 7) (a_refund (pos 50000))).0
        ((some 8, a_refund (pos 100)) ∷ (none, a_refund (pos 200)) ∷ []) in
    perform g (some 7) (record {
      operation = create_order;
      amount = paise (pos 99);
      mock_id = 2;
      http = created_only;
    })
    ≡ (g, record { reply = returns done; sent = 0; slept = 0 })
unfolding perform to_paise once check_idempotency request make_request retry one_pass
perform_once_example =
    perform_once (new true true false) 7 (a_refund (pos 50000)) 5 (some (pos 50000))
      (some processed) ((some 8, a_refund (pos 100)) ∷ (none, a_refund (pos 200)) ∷ [])
      (record {
        operation = create_order;
        amount = paise (pos 99);
        mock_id = 2;
        http = created_only;
      })
      (pos 99) refl refl
