-- ===== src/Gateway/Types.antt =====
-- internal/core/datamodel/paymentgateway/types.go, the job of internal/paymentgateway/client.go, and
-- the answers that the client can get from the gateway.
use expense_management.Prelude.{
  ℕ, String, Option, none, some, ℤ, pos, leb_ℤ, str_eq, if◌then◌else◌, Result,
}
use expense_management.Errors.{GoError, msg}

-- A `PaymentStatus` is a string; the code uses three of them, and "" for not set.
abbrev pub payment_status_pending : String
payment_status_pending = "PENDING"

abbrev pub payment_status_success : String
payment_status_success = "SUCCESS"

abbrev pub payment_status_failed : String
payment_status_failed = "FAILED"

pub record PaymentRequest : Type 0 where
  pub external_id : String
  pub amount : ℤ
  pub currency : String

-- `Validate`; `none` is nil.
unfoldable pub validate_request : PaymentRequest → Option GoError
validate_request r =
    if str_eq r.external_id ""
    then some (msg "external_id is required")
    else if leb_ℤ r.amount (pos 0)
    then some (msg "amount must be greater than 0")
    else if str_eq r.currency ""
    then some (msg "currency is required")
    else none

-- `PaymentResponse`, whose `Data` is its only field.
pub record PaymentData : Type 0 where
  pub id : String
  pub external_id : String
  pub status : String

pub record PaymentJob : Type 0 where
  pub external_id : String
  pub amount : ℤ
  pub payment_id : String

-- What a request to the gateway's API comes to: it cannot be built, it gets no answer, or an answer
-- with a status code and the body, decoded or with the decoder's error.
pub data ApiReply (A : Type 0) : Type 0 where
  no_request : GoError → ApiReply A
  no_response : GoError → ApiReply A
  response : ℕ → Result GoError A → ApiReply A
