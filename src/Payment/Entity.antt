-- ===== src/Payment/Entity.antt =====
-- internal/payment/payment.go and internal/core/datamodel/payment/payment.go: a payment.
pub mod Laws
use expense_management.Prelude.{
  ℕ, String, List, Option, none, some, Bool, ◌||◌, ◌&&◌, ℤ, pos, ltb_ℤ, add64, str_eq,
  if◌then◌else◌, to_lower, codes, codes_eq,
}
use expense_management.Gateway.Types.{PaymentData}

-- A `json.RawMessage` is the value that was marshalled: the gateway's response, or the data of a
-- callback (gateway's payment id, gateway's status, amount, time, failure reason if any).
pub data RawMessage : Type 0 where
  response_json : PaymentData → RawMessage
  callback_json : String → String → ℤ → ℕ → Option String → RawMessage

pub record Payment : Type 0 where
  pub id : ℤ
  pub expense_id : ℤ
  pub external_id : String
  pub amount_idr : ℤ
  pub status : String
  pub payment_method : Option String
  pub gateway_response : Option RawMessage
  pub failure_reason : Option String
  pub retry_count : ℤ
  pub processed_at : Option ℕ
  pub created_at : ℕ
  pub updated_at : ℕ

pub record PaymentView : Type 0 where
  pub id : ℤ
  pub expense_id : ℤ
  pub external_id : String
  pub amount_idr : ℤ
  pub status : String
  pub payment_method : Option String
  pub gateway_response : Option RawMessage
  pub failure_reason : Option String
  pub retry_count : ℤ
  pub processed_at : Option ℕ
  pub created_at : ℕ
  pub updated_at : ℕ

pub record PaymentSummaryView : Type 0 where
  pub id : ℤ
  pub external_id : String
  pub amount_idr : ℤ
  pub status : String
  pub retry_count : ℤ
  pub created_at : ℕ

abbrev pub status_pending : String
status_pending = "pending"

abbrev pub status_success : String
status_success = "success"

abbrev pub status_failed : String
status_failed = "failed"

-- The id is 0 until the row is created.
unfoldable pub new_payment : ℕ → ℤ → String → ℤ → Payment
new_payment now expense_id external_id amount_idr = record {
  id = pos 0;
  expense_id = expense_id;
  external_id = external_id;
  amount_idr = amount_idr;
  status = status_pending;
  payment_method = none;
  gateway_response = none;
  failure_reason = none;
  retry_count = pos 0;
  processed_at = none;
  created_at = now;
  updated_at = now;
}

unfoldable pub mark_as_success : ℕ → Option String → Option RawMessage → Payment → Payment
mark_as_success now method response p = record p {
  status = status_success;
  payment_method = method;
  gateway_response = response;
  processed_at = some now;
  updated_at = now;
}

unfoldable pub mark_as_failed : ℕ → String → Option RawMessage → Payment → Payment
mark_as_failed now reason response p = record p {
  status = status_failed;
  failure_reason = some reason;
  gateway_response = response;
  processed_at = some now;
  updated_at = now;
}

unfoldable pub increment_retry_count : ℕ → Payment → Payment
increment_retry_count now p = record p {
  retry_count = add64 p.retry_count (pos 1);
  updated_at = now;
}

unfoldable pub can_retry : Payment → Bool
can_retry p = str_eq p.status status_failed && ltb_ℤ p.retry_count (pos 3)

unfoldable pub is_completed : Payment → Bool
is_completed p = str_eq p.status status_success || str_eq p.status status_failed

unfoldable pub is_pending : Payment → Bool
is_pending p = str_eq p.status status_pending

is_one_of : List ℕ → String → String → String → Bool
is_one_of s a b c = codes_eq s (codes a) || codes_eq s (codes b) || codes_eq s (codes c)

-- The `switch` on the lower case of the gateway's status.
unfoldable pub map_external_status : String → String
unfolding is_one_of
map_external_status external_status =
    let lowered = to_lower external_status in
    if is_one_of lowered "success" "completed" "paid"
    then status_success
    else if is_one_of lowered "failed" "cancelled" "declined"
    then status_failed
    else status_pending

unfoldable pub to_view : Payment → PaymentView
to_view p = record {
  id = p.id;
  expense_id = p.expense_id;
  external_id = p.external_id;
  amount_idr = p.amount_idr;
  status = p.status;
  payment_method = p.payment_method;
  gateway_response = p.gateway_response;
  failure_reason = p.failure_reason;
  retry_count = p.retry_count;
  processed_at = p.processed_at;
  created_at = p.created_at;
  updated_at = p.updated_at;
}

unfoldable pub to_summary_view : Payment → PaymentSummaryView
to_summary_view p = record {
  id = p.id;
  external_id = p.external_id;
  amount_idr = p.amount_idr;
  status = p.status;
  retry_count = p.retry_count;
  created_at = p.created_at;
}
