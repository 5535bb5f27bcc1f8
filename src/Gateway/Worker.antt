-- ===== src/Gateway/Worker.antt =====
-- internal/paymentgateway/client.go: what a worker does with a job, and the callback that it sends.
pub mod Callback
use expense_management.Prelude.{
  String, Option, none, some, Bool, ℤ, ◌<>◌, str_eq, if◌then◌else◌, starts_with, Result, ok, err,
}
use expense_management.Errors.{GoError, error_text}
use expense_management.Gateway.Types.{
  PaymentJob, ApiReply, payment_status_success, payment_status_failed,
}
use expense_management.Gateway.Client.{initiate_payment}

-- What the worker reads from outside: the gateway's answer to a second request, whether the client
-- is shut down while it waits or before it sends, whether the random number is below 0.9, and what
-- `http.NewRequestWithContext` answers for the webhook's URL.
pub record WorkerEnv : Type 0 where
  pub api : ApiReply String
  pub cancelled_waiting : Bool
  pub cancelled_sending : Bool
  pub lucky : Bool
  pub webhook_request : Option GoError

-- The body that is posted to the webhook; the reason is left out where it is empty.
pub record CallbackPayload : Type 0 where
  pub external_id : String
  pub status : String
  pub gateway_payment_id : String
  pub amount : ℤ
  pub failure_reason : Option String

unfoldable pub is_fallback : PaymentJob → Bool
is_fallback job = starts_with job.payment_id "postman_"

-- The request that is sent, if it could be made.
abbrev posted : Option GoError → CallbackPayload → Option CallbackPayload
posted none payload = some payload
posted (some e) payload = none

-- `sendCallbackToWebhook`: the request that it sends, if any. The payload's texts and number always
-- marshal, and what the webhook answers is only logged.
unfoldable pub send_callback_to_webhook :
    WorkerEnv → String → String → ℤ → String → String → Option CallbackPayload
send_callback_to_webhook env external_id status amount payment_id failure_reason =
    if env.cancelled_sending
    then none
    else posted env.webhook_request (record {
      external_id = external_id;
      status = status;
      gateway_payment_id = payment_id;
      amount = amount;
      failure_reason = if str_eq failure_reason "" then none else some failure_reason;
    })

-- The part under `if status == ""`: wait, and draw the outcome.
simulate : WorkerEnv → PaymentJob → Option CallbackPayload
unfolding send_callback_to_webhook
simulate env job =
    if env.cancelled_waiting
    then none
    else if env.lucky
    then send_callback_to_webhook env job.external_id payment_status_success job.amount
        job.payment_id ""
    else send_callback_to_webhook env job.external_id payment_status_failed job.amount
        job.payment_id "Insufficient funds"

after_retry : WorkerEnv → PaymentJob → Result GoError String → Option CallbackPayload
unfolding simulate
after_retry env job (ok real_id) = simulate env (record job { payment_id = real_id })
after_retry env job (err e) =
    send_callback_to_webhook env job.external_id payment_status_failed job.amount job.payment_id
      ("Payment initiation failed: " <> error_text e)

-- `processPaymentJob`: the callback that the job leads to.
unfoldable pub process_payment_job : WorkerEnv → PaymentJob → Option CallbackPayload
unfolding is_fallback simulate after_retry initiate_payment
process_payment_job env job =
    if is_fallback job then after_retry env job (initiate_payment env.api) else simulate env job
