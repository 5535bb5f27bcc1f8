-- ===== src/Expense/Dto/Laws.antt =====
-- Which requests of internal/expense/dto.go are accepted.
use expense_management.Prelude.{
  ℕ, ◌≤◌, none, ◌≡◌, ◌≢◌, ◌↔◌, ◌⊎◌, refl, arith, pos, ◌≤ℤ◌, len, eq_iff, str_ne,
}
use expense_management.Errors.{is_app_error, new_validation_field_error}
use expense_management.Validation.{required, min_int, max_int, min_length, max_length, not_future}
use expense_management.Validation.Laws.{validate_iff}
use expense_management.Expense.Dto.{
  CreateExpenseDto, validate_create, create_expense_fields, UpdateExpenseStatusDto,
  validate_update_status,
}

pub record IsAcceptable (now : ℕ) (dto : CreateExpenseDto) : Type 0 where
  pub least : pos 10000 ≤ℤ dto.amount_idr
  pub most : dto.amount_idr ≤ℤ pos 50000000
  pub described : dto.description ≢ ""
  pub counted : 1 ≤ len dto.description
  pub short : len dto.description ≤ 500
  pub categorised : dto.category ≢ ""
  pub past : dto.expense_date ≤ now

pub validate_create_iff :
    (now : ℕ) (dto : CreateExpenseDto) → (validate_create now dto ≡ none) ↔ IsAcceptable now dto
unfolding validate_create required min_int max_int min_length max_length not_future is_app_error
    new_validation_field_error
validate_create_iff now dto = (
  λ h.
      let parts = (validate_iff (create_expense_fields now dto)).0 h in
      ground (arith, eq_iff dto.description "", eq_iff dto.category ""),
  λ h.
      (validate_iff (create_expense_fields now dto)).1
        (ground (arith, eq_iff dto.description "", eq_iff dto.category "")),
)

-- A change of status is accepted exactly to "approved", and to "rejected" with a reason.
validate_update_status_iff :
    (dto : UpdateExpenseStatusDto)
    → (validate_update_status dto ≡ none)
      ↔ ((dto.status ≡ "approved") ⊎ ((dto.status ≡ "rejected") × (dto.reason ≢ "")))
unfolding validate_update_status
validate_update_status_iff dto = (
  λ h. ground (
    arith,
    eq_iff dto.status "",
    eq_iff dto.status "approved",
    eq_iff dto.status "rejected",
    eq_iff dto.reason "",
    str_ne "approved" "rejected" refl,
    str_ne "" "approved" refl,
    str_ne "" "rejected" refl,
  ),
  λ h. ground (
    arith,
    eq_iff dto.status "",
    eq_iff dto.status "approved",
    eq_iff dto.status "rejected",
    eq_iff dto.reason "",
    str_ne "approved" "rejected" refl,
    str_ne "" "approved" refl,
    str_ne "" "rejected" refl,
  ),
)
