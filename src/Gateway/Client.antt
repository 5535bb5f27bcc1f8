-- ===== src/Gateway/Client.antt =====
-- internal/paymentgateway/client.go: the calls of the client. What the gateway's API answers is an
-- argument; marshalling the requests never fails.
pub mod Laws
use expense_management.Prelude.{
  ℕ, String, List, [], ◌∷◌, ◌++◌, Option, none, some, ◌||◌, ℤ, pos, leb_ℤ, ltb, ◌==◌, show, ◌<>◌,
  if◌then◌else◌, length, Result, ok, err,
}
use expense_management.Errors.{GoError, msg, wrap}
use expense_management.Gateway.Types.{
  PaymentRequest, PaymentData, PaymentJob, ApiReply, no_request, no_response, response,
  validate_request, payment_status_pending,
}

-- `Config`, less the URLs, the key and the timeout.
pub record Config : Type 0 where
  pub max_workers : ℤ
  pub job_queue_size : ℤ
  pub worker_pool_size : ℤ

-- The sizes that `NewClient` settles on.
unfoldable pub new_client : Config → Config
new_client config =
    let max_workers = if leb_ℤ config.max_workers (pos 0) then pos 10 else config.max_workers in
    record {
      max_workers = max_workers;
      job_queue_size =
          if leb_ℤ config.job_queue_size (pos 0) then pos 100 else config.job_queue_size;
      worker_pool_size =
          if leb_ℤ config.worker_pool_size (pos 0) then max_workers else config.worker_pool_size;
    }

abbrev decoded_or_error : {A : Type 0} → Result GoError A → Result GoError A
decoded_or_error (ok a) = ok a
decoded_or_error (err e) = err (wrap "failed to decode response" e)

-- `initiatePaymentWithPostman`, from the request's outcome on: the id that the gateway gave.
unfoldable pub initiate_payment : ApiReply String → Result GoError String
initiate_payment (no_request e) = err (wrap "failed to create HTTP request" e)
initiate_payment (no_response e) = err (wrap "HTTP request failed" e)
initiate_payment (response status decoded) =
    if status == 200 || status == 201
    then decoded_or_error decoded
    else err (msg ("Postman API returned status " <> show (pos status)))

id_or_fallback : String → Result GoError String → String
id_or_fallback external_id (ok id) = id
id_or_fallback external_id (err e) = "postman_" <> external_id

-- The `select` with a `default`: the job is put in the queue if there is room.
enqueue :
    ℕ → PaymentJob → PaymentData → List PaymentJob → Result GoError PaymentData × List PaymentJob
enqueue capacity job answer queue =
    if ltb (length queue) capacity
    then (ok answer, queue ++ job ∷ [])
    else (err (msg "payment queue full, please try again later"), queue)

submit :
    ℕ
    → PaymentRequest
    → Option GoError
    → String
    → List PaymentJob
    → Result GoError PaymentData × List PaymentJob
unfolding enqueue
submit capacity req (some e) payment_id queue = (err (wrap "validation error" e), queue)
submit capacity req none payment_id queue =
    enqueue capacity
      (record { external_id = req.external_id; amount = req.amount; payment_id = payment_id })
      (record { id = payment_id; external_id = req.external_id; status = payment_status_pending })
      queue

-- `ProcessPayment`, on a job queue of a capacity.
unfoldable pub process_payment :
    ℕ
    → ApiReply String
    → PaymentRequest
    → List PaymentJob
    → Result GoError PaymentData × List PaymentJob
unfolding submit initiate_payment id_or_fallback
process_payment capacity api req queue =
    submit capacity req (validate_request req)
      (id_or_fallback req.external_id (initiate_payment api)) queue

-- `GetPaymentStatus`, from the request's outcome on.
unfoldable pub get_payment_status : ApiReply PaymentData → Result GoError PaymentData
get_payment_status (no_request e) = err (wrap "failed to create request" e)
get_payment_status (no_response e) = err (wrap "failed to get payment status" e)
get_payment_status (response status decoded) =
    if status == 200
    then decoded_or_error decoded
    else err (msg ("API returned status " <> show (pos status)))
