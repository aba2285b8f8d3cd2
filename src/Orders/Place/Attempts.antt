-- ===== src/Orders/Place/Attempts.antt =====
-- create_payment_intent and retry_payments of backend/orders/services.py with record_payment_attempt
-- and update_payment_attempt_resp of backend/orders/repository.py. The provider is a parameter: what
-- each call of it ends in. The backoff sleeps keep no state.
use phyllonix.Base.{
  ℕ, zero, suc, ◌+◌, Bool, true, false, ◌&&◌, Option, none, some, [], ◌∷◌, ◌++◌, ltb, leb, ◌==◌,
  if◌then◌else◌, find_where, update_where, Action, http, crash, gets, modify, pure, raise, raise_if,
  commit, ◌>>=◌, ◌>>◌,
}
use phyllonix.Schema.{OrderResponse, Payment, PaymentAttempt, PaymentAttemptStatus}
use phyllonix.Orders.Shop.{Shop, fresh}
use phyllonix.Orders.Place.Tables.{update_payment_status_nprovider, update_idempotent_response}

-- How a call of create_psp_order ends: a response with its "id", a network error of
-- TRANSIENT_EXCEPTIONS, an HTTPStatusError, or any other exception.
pub data PspOutcome : Type 0 where
  responded : Option ℕ → PspOutcome
  transient : PspOutcome
  status_error : ℕ → PspOutcome
  other_error : PspOutcome

-- The tuple that retry_wrapper returns; the response is its "id" field.
pub record Tried : Type 0 where
  pub resp : Option (Option ℕ)
  pub non_retryable : Bool
  pub retryable : Bool
  pub attempt : ℕ

unfoldable pub record_payment_attempt : ℕ → ℕ → PaymentAttemptStatus → Action Shop ℕ
record_payment_attempt payment_id attempt_no status = do
  id ← fresh
  modify (λ d. record d {
    attempts =
        d.attempts
        ++ record { id = id; payment_id = payment_id; attempt_no = attempt_no; status = status }
          ∷ [];
  })
  pure id

unfoldable pub update_payment_attempt_resp : ℕ → PaymentAttemptStatus → Action Shop (Unit {0})
update_payment_attempt_resp attempt_id status = modify (λ d. record d {
  attempts =
      update_where (λ (a : PaymentAttempt). a.id == attempt_id) (λ a. record a { status = status })
        d.attempts;
})

-- `500 <= status_code < 600`
abbrev pub is_server_error : ℕ → Bool
is_server_error code = leb 500 code && ltb code 600

-- What one try leaves: an answer, or an error that a further try may follow.
pub data Step : Type 0 where
  answered : Option ℕ → Step
  gave_up : Step
  again : Step

unfoldable pub step_of : PspOutcome → Step
step_of (responded id) = answered id
step_of transient = again
step_of (status_error code) = if is_server_error code then again else gave_up
step_of other_error = gave_up

abbrev pub status_of : Step → PaymentAttemptStatus
status_of (answered _) = PaymentAttemptStatus.success
status_of again = PaymentAttemptStatus.retrying
status_of gave_up = PaymentAttemptStatus.failed

-- The body of the loop for one attempt.
unfoldable pub attempt : ℕ → PspOutcome → ℕ → Action Shop Step
unfolding record_payment_attempt step_of update_payment_attempt_resp
attempt payment_id outcome attempt_idx = do
  attempt_id ← record_payment_attempt payment_id attempt_idx PaymentAttemptStatus.pending
  update_payment_attempt_resp attempt_id (status_of (step_of outcome))
  pure (step_of outcome)

-- The loop from `idx` on, with `left` tries left; `failed` says that a retryable error was seen.
unfoldable pub retry_from : (ℕ → PspOutcome) → ℕ → ℕ → ℕ → Bool → Action Shop Tried
unfolding attempt
retry_from psp payment_id zero idx failed =
    pure (record { resp = none; non_retryable = false; retryable = failed; attempt = idx })
retry_from psp payment_id (suc left) idx failed = do
  step ← attempt payment_id (psp (suc idx)) (suc idx)
  elim step [
    | answered id ↦
        pure
          (record { resp = some id; non_retryable = false; retryable = false; attempt = suc idx })
    | gave_up ↦
        pure (record { resp = none; non_retryable = true; retryable = failed; attempt = suc idx })
    | again ↦ retry_from psp payment_id left (suc idx) true
  ]

-- DEFAULT_RETRIES
unfoldable pub retry_payments : (ℕ → PspOutcome) → ℕ → Action Shop Tried
unfolding retry_from
retry_payments psp payment_id = retry_from psp payment_id 3 0 false

abbrev pub paid_response : OrderResponse → ℕ → OrderResponse
paid_response order_data provider_order_id = record order_data {
  provider_order_id = some provider_order_id;
}

-- The response's id, if there is a response: with none, the attempt is marked and the order stays.
unfoldable pub answer :
    ℕ → Payment → OrderResponse → ℕ → Option (Option ℕ) → Action Shop OrderResponse
unfolding record_payment_attempt update_payment_status_nprovider update_idempotent_response
answer i_key pay order_data last none = raise crash
answer i_key pay order_data last (some none) = do
  _ ← record_payment_attempt pay.id (last + 1) PaymentAttemptStatus.unknown
  raise (http 502)
answer i_key pay order_data last (some (some provider_order_id)) = do
  update_payment_status_nprovider pay.id provider_order_id
  update_idempotent_response i_key 200 (paid_response order_data provider_order_id)
  commit
  pure (paid_response order_data provider_order_id)

-- What follows the tries.
unfoldable pub judge : ℕ → Payment → OrderResponse → Tried → Action Shop OrderResponse
unfolding answer
judge i_key pay order_data t = do
  raise_if t.non_retryable (http 400)
  raise_if t.retryable (http 502)
  answer i_key pay order_data t.attempt t.resp

unfoldable pub pay_for :
    (ℕ → PspOutcome) → ℕ → OrderResponse → Option Payment → Action Shop OrderResponse
unfolding retry_payments judge
pay_for psp i_key order_data none = raise crash
pay_for psp i_key order_data (some pay) = retry_payments psp pay.id >>= judge i_key pay order_data

unfoldable pub create_payment_intent :
    (ℕ → PspOutcome) → ℕ → ℕ → OrderResponse → Action Shop OrderResponse
unfolding pay_for
create_payment_intent psp i_key pay_public_id order_data = do
  found ← gets (λ d. find_where (λ (p : Payment). p.public_id == pay_public_id) d.payments)
  pay_for psp i_key order_data found
