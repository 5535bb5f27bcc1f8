-- ===== src/Expense/Dto.antt =====
-- internal/expense/dto.go: the requests and their validation.
pub mod Laws
use expense_management.Prelude.{
  ℕ, String, Option, none, some, ℤ, ◌&&◌, not, str_eq, if◌then◌else◌, Result, ok, err,
}
use expense_management.Errors.{AppError, GoError, app, validation_failed, new_validation_error}
use expense_management.Validation.{
  ValidationBuilder, str, int, time, new_validator, field, required, not_future, amount_chain,
  description_chain, validate,
}

pub record CreateExpenseDto : Type 0 where
  pub amount_idr : ℤ
  pub description : String
  pub category : String
  pub expense_date : ℕ
  pub receipt_url : Option String
  pub receipt_file_name : Option String

create_expense_fields : ℕ → CreateExpenseDto → ValidationBuilder
unfolding field new_validator required not_future
create_expense_fields now dto =
    let b0 = field "amount_idr" (int dto.amount_idr) amount_chain new_validator in
    let b1 = field "description" (str dto.description) description_chain b0 in
    let b2 = field "category" (str dto.category) required b1 in
    field "expense_date" (time dto.expense_date) (not_future now) b2

-- `Validate` of a `CreateExpenseDTO`; `none` is nil.
unfoldable pub validate_create : ℕ → CreateExpenseDto → Option AppError
unfolding create_expense_fields
validate_create now dto = validate (create_expense_fields now dto)

pub record UpdateExpenseStatusDto : Type 0 where
  pub status : String
  pub reason : String

invalid : String → Option AppError
unfolding new_validation_error
invalid message = some (new_validation_error message validation_failed)

unfoldable pub validate_update_status : UpdateExpenseStatusDto → Option AppError
unfolding invalid
validate_update_status dto =
    if str_eq dto.status ""
    then invalid "status is required"
    else if not (str_eq dto.status "approved") && not (str_eq dto.status "rejected")
    then invalid "status must be either 'approved' or 'rejected'"
    else if str_eq dto.status "rejected" && str_eq dto.reason ""
    then invalid "reason is required when rejecting an expense"
    else none

pub record RejectExpenseDto : Type 0 where
  pub reason : String

unfoldable pub validate_reject : RejectExpenseDto → Option AppError
unfolding invalid
validate_reject dto =
    if str_eq dto.reason "" then invalid "reason is required when rejecting an expense" else none
