-- ===== src/Payment/Dto.antt =====
-- internal/payment/dto.go: requests, responses and their validation.
use expense_management.Prelude.{String, Option, ℤ, pos}
use expense_management.Errors.{AppError, invalid_amount}
use expense_management.Validation.{
  str, int, new_validator, field, required, min_int, validate, FieldValidator,
}

pub record PaymentRequest : Type 0 where
  pub amount : ℤ
  pub external_id : String

-- `PaymentResponse`, whose `Data` is its only field.
pub record PaymentResponse : Type 0 where
  pub id : String
  pub external_id : String
  pub status : String

pub record PaymentRetryRequest : Type 0 where
  pub external_id : String
  pub expense_id : String

unfoldable pub validate_retry : PaymentRetryRequest → Option AppError
unfolding validate new_validator field required
validate_retry r = validate (
    field "expense_id" (str r.expense_id) required
      (field "external_id" (str r.external_id) required new_validator))

abbrev payment_amount : FieldValidator → FieldValidator
payment_amount fv = min_int (pos 10001) invalid_amount (required fv)

unfoldable pub validate_payment : PaymentRequest → Option AppError
unfolding validate new_validator field required min_int
validate_payment p = validate (
    field "external_id" (str p.external_id) required
      (field "amount" (int p.amount) payment_amount new_validator))
