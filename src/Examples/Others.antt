-- ===== src/Examples/Others.antt =====
-- Requests, permissions, events and categories.
use expense_management.Prelude.{
  ℕ, ◌+◌, ◌==◌, String, List, [], ◌∷◌, Option, some, none, ◌≡◌, ◌↔◌, true, pos, err, parse_int,
  if◌then◌else◌, All,
}
use expense_management.Errors.{GoError, global, unauthorized_access, msg}
use expense_management.Validation.{ValidationBuilder, new_validator, field, str, required, validate}
use expense_management.Validation.Laws.{Passes, validate_iff}
use expense_management.Transport.{User, write_json}
use expense_management.Auth.Rbac.{
  HandlerFunc, default_checker, rbac_check, require_approve_expense, require_reject_expense,
  require_retry_payment, require_manager, require_admin,
}
use expense_management.Auth.Rbac.Access.{LetsThrough, middleware-LetsThrough}
use expense_management.Expense.Dto.{UpdateExpenseStatusDto}
use expense_management.Expense.Query.{no_params, ExpenseQueryParams}
use expense_management.Expense.Entity.{Expense, new_expense}
use expense_management.Expense.Handlers.{ServiceApi, approve_expense_handler}
use expense_management.Expense.Handlers.Answers.{
  ApprovalAnswer, approve_expense_handler-ApprovalAnswer,
}
use expense_management.Events.{Event, expense_approved, new_expense_approved_event}
use expense_management.Category.{ExpenseCategory}
use expense_management.Examples.Data.{env, taxi}

abbrev no_reason : UpdateExpenseStatusDto
no_reason = record { status = "rejected"; reason = "" }

abbrev named : ValidationBuilder
named = field "name" (str "") required new_validator

validate_iff_example : (validate named ≡ none) ↔ All Passes named.fields
validate_iff_example = validate_iff named

abbrev approver : List String
approver = "view" ∷ "approve_expenses" ∷ []

abbrev count_calls : HandlerFunc ℕ ℕ
count_calls user n = (write_json 200 n, n)

abbrev boss : User
boss = record { id = pos 9; email = "boss@mail"; permissions = approver }

middleware-LetsThrough_example :
    LetsThrough
      ("approve_expenses" ∷ "admin" ∷ [])
      count_calls
      (some boss)
      3
      (require_approve_expense default_checker count_calls (some boss) 3)
    × LetsThrough
        ("reject_expenses" ∷ "admin" ∷ [])
        count_calls
        (some boss)
        3
        (require_reject_expense default_checker count_calls (some boss) 3)
    × LetsThrough
        ("retry_payments" ∷ "admin" ∷ [])
        count_calls
        (some boss)
        3
        (require_retry_payment default_checker count_calls (some boss) 3)
    × LetsThrough
        ("manager" ∷ "admin" ∷ "approve_expenses" ∷ "reject_expenses" ∷ [])
        count_calls
        (some boss)
        3
        (require_manager default_checker count_calls (some boss) 3)
    × LetsThrough
        ("admin" ∷ [])
        count_calls
        (some boss)
        3
        (require_admin default_checker count_calls (some boss) 3)
    × LetsThrough
        ("view" ∷ [])
        count_calls
        (some boss)
        3
        (rbac_check default_checker count_calls "view" (some boss) 3)
middleware-LetsThrough_example = middleware-LetsThrough count_calls (some boss) 3 "view"

-- A service that refuses everything.
abbrev closed : ServiceApi ℕ
closed = record {
  create_expense = λ env dto user s. (err (msg "closed"), s);
  get_expense_by_id = λ id user perms s. (err (msg "closed"), s);
  get_expenses_for_user = λ user perms q s. (err (msg "closed"), s);
  get_expenses_count_for_user = λ user perms q s. (err (msg "closed"), s);
  approve_expense = λ env id user perms s. (err (global unauthorized_access), s);
  reject_expense = λ env id user reason perms s. (err (global unauthorized_access), s);
}

approve_expense_handler-ApprovalAnswer_example :
    ApprovalAnswer closed env 0
      (some boss)
      (parse_int "12")
      (approve_expense_handler closed env (some boss) "12" 0)
approve_expense_handler-ApprovalAnswer_example =
    approve_expense_handler-ApprovalAnswer closed env 0 (some boss) "12"

abbrev third : ExpenseQueryParams
third = record no_params { page = pos 3; per_page = pos 20 }

abbrev approved : Event
approved = expense_approved (new_expense_approved_event "u-1" 0 (pos 1) (pos 50000) (pos 4) "IDR")

-- Each handler adds its number, and handler 7 fails.
abbrev run : ℕ → Event → ℕ → Option GoError × ℕ
run h e n = (if h == 7 then some (msg "no") else none, n + h)

abbrev meal : Expense
meal = new_expense 1 2 (pos 4) taxi

abbrev makan : ExpenseCategory
makan = record {
  id = pos 1;
  name = "makan";
  description = "meals";
  is_active = true;
  created_at = 0;
  updated_at = 0;
}
