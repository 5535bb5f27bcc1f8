-- ===== src/Payment/Handlers.antt =====
-- internal/payment/handler.go: the request to retry a payment.
use expense_management.Prelude.{
  String, List, Option, none, some, ℤ, Result, ok, err, Exec, parse_int,
}
use expense_management.Errors.{
  GoError, app, AppError, code_invalid_token, validation_failed, new_unauthorized_error,
  new_validation_error,
}
use expense_management.Transport.{User, Response, write_json, handle_error, handle_service_error}
use expense_management.Payment.Dto.{PaymentRetryRequest, validate_retry}

-- The fields of the answer, `status`, `expense_id` and `external_id`.
pub record RetryAnswer : Type 0 where
  pub status : String
  pub expense_id : String
  pub external_id : String

retry_answer :
    {S : Type 0} → PaymentRetryRequest → Result GoError (Unit {0}) × S → Response RetryAnswer × S
retry_answer req (err e, s) = (handle_service_error e, s)
retry_answer req (ok u, s) = (
  write_json 200 (record {
    status = "payment retry initiated";
    expense_id = req.expense_id;
    external_id = req.external_id;
  }),
  s,
)

-- `service` is `ExpenseService.RetryPayment`.
module _ {S : Type 0} (service : ℤ → List String → Exec S GoError (Unit {0})) where
  retry_parsed : User → PaymentRetryRequest → Option ℤ → S → Response RetryAnswer × S
  unfolding retry_answer
  retry_parsed user req none s =
      (handle_error (app (new_validation_error "invalid expense ID" validation_failed)), s)
  retry_parsed user req (some id) s = retry_answer req (service id user.permissions s)

  retry_valid : User → PaymentRetryRequest → Option AppError → S → Response RetryAnswer × S
  unfolding retry_parsed
  retry_valid user req (some e) s = (handle_service_error (app e), s)
  retry_valid user req none s = retry_parsed user req (parse_int req.expense_id) s

  pub retry_payment_handler :
      Option User → Option PaymentRetryRequest → S → Response RetryAnswer × S
  unfolding retry_valid
  retry_payment_handler none body s =
      (handle_error (app (new_unauthorized_error "authentication required" code_invalid_token)), s)
  retry_payment_handler (some user) none s =
      (handle_error (app (new_validation_error "invalid request body" validation_failed)), s)
  retry_payment_handler (some user) (some req) s = retry_valid user req (validate_retry req) s
