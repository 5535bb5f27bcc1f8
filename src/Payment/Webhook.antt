-- ===== src/Payment/Webhook.antt =====
-- internal/payment/webhook_handler.go: the gateway's callback. The request's body comes decoded, as
-- `none` where it does not decode.
pub mod Callback
use expense_management.Prelude.{
  ℕ, String, Option, none, some, ℤ, show, ◌<>◌, str_eq, if◌then◌else◌, Result, ok, err, Exec, pure,
  map_err, ◌>>=◌, ◌>>◌,
}
use expense_management.Errors.{GoError, wrap}
use expense_management.Transport.{Response, error_message, json}
use expense_management.World.{World, Env, spawn}
use expense_management.Events.{
  payment_completed, payment_failed, new_payment_completed_event, new_payment_failed_event,
}
use expense_management.Events.Bus.{EventBus, publish}
use expense_management.Payment.Entity.{
  Payment, callback_json, map_external_status, status_success, status_failed,
}
use expense_management.Payment.Repository.{RepositoryApi}
use expense_management.Payment.Service

pub record PaymentCallbackRequest : Type 0 where
  pub external_id : String
  pub status : String
  pub gateway_payment_id : String
  pub amount : ℤ
  pub failure_reason : String

pub record PaymentCallbackResponse : Type 0 where
  pub status : String
  pub message : String

abbrev reason_of : String → Option String
reason_of reason = if str_eq reason "" then none else some reason

module _ {Db H : Type 0} (repository : RepositoryApi Db) (capacity : ℕ) (bus : EventBus H) where
  -- The events that follow the update of the status.
  announce : Env → PaymentCallbackRequest → Payment → String → Exec (World Db H) GoError (Unit {0})
  announce env req payment status =
      if str_eq status status_success
      then spawn (
          publish
            (payment_completed (
              new_payment_completed_event env.uuid (env.clock 3) (show payment.id)
                payment.expense_id req.external_id req.amount status req.gateway_payment_id))
            bus)
      else if str_eq status status_failed
      then spawn (
          publish
            (payment_failed (
              new_payment_failed_event env.uuid (env.clock 3) (show payment.id) payment.expense_id
                req.external_id req.amount req.failure_reason payment.retry_count))
            bus)
      else pure tt

  -- The clock is read for the data of the callback, by the update, by gorm and for the event.
  pub process_payment_callback : Env → PaymentCallbackRequest → Exec (World Db H) GoError (Unit {0})
  process_payment_callback env req = do
    payment ←
        map_err (wrap ("payment not found for external_id " <> req.external_id))
          (Service.get_payment_by_external_id repository capacity req.external_id)
    let status = map_external_status req.status
    map_err (wrap "failed to update payment status") (
        Service.update_payment_status repository capacity env payment.id (record {
          status = status;
          payment_method = none;
          gateway_response = some (
              callback_json req.gateway_payment_id req.status req.amount (env.clock 0)
                (reason_of req.failure_reason));
          failure_reason = reason_of req.failure_reason;
        }))
    announce env req payment status

  -- `WriteErrorResponse`
  write_error_response : ℕ → String → Response PaymentCallbackResponse
  write_error_response status message = record { status = status; body = error_message message }

  callback_response : Result GoError (Unit {0}) → Response PaymentCallbackResponse
  unfolding write_error_response
  callback_response (err e) = write_error_response 500 "failed to process payment callback"
  callback_response (ok u) = record {
    status = 200;
    body = json (record { status = "success"; message = "callback processed successfully" });
  }

  pub handle_payment_callback :
      Env
      → Option PaymentCallbackRequest
      → World Db H
      → Response PaymentCallbackResponse × World Db H
  unfolding write_error_response callback_response process_payment_callback
  handle_payment_callback env none w = (write_error_response 400 "invalid request body", w)
  handle_payment_callback env (some req) w =
      if str_eq req.external_id ""
      then (write_error_response 400 "external_id is required", w)
      else if str_eq req.status ""
      then (write_error_response 400 "status is required", w)
      else (let (r, w') = process_payment_callback env req w in (callback_response r, w'))
