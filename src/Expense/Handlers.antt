-- ===== src/Expense/Handlers.antt =====
-- internal/expense/handler.go: the HTTP handlers. The id of the path and the body come as the
-- request has them: the text of the id, and the decoded body or `none`.
pub mod Answers
use expense_management.Prelude.{
  ℕ, String, List, Option, none, some, ℤ, Result, ok, err, Exec, parse_int,
}
use expense_management.Errors.{
  GoError, AppError, app_error_text, global, expense_not_found, unauthorized_access,
  invalid_expense_status,
}
use expense_management.Transport.{User, Response, write_json, write_error, handle_service_error}
use expense_management.World.{Env}
use expense_management.Expense.Dto.{CreateExpenseDto, RejectExpenseDto, validate_reject}
use expense_management.Expense.Query.{
  ExpenseQueryParams, no_params, parse_from_request, set_defaults,
}
use expense_management.Expense.Entity.{Expense}

-- The part of `ServiceAPI` that the handlers call.
pub record ServiceApi (S : Type 0) : Type 0 where
  pub create_expense : Env → CreateExpenseDto → ℤ → Exec S GoError Expense
  pub get_expense_by_id : ℤ → ℤ → List String → Exec S GoError Expense
  pub get_expenses_for_user : ℤ → List String → ExpenseQueryParams → Exec S GoError (List Expense)
  pub get_expenses_count_for_user : ℤ → List String → ExpenseQueryParams → Exec S GoError ℕ
  pub approve_expense : Env → ℤ → ℤ → List String → Exec S GoError (Unit {0})
  pub reject_expense : Env → ℤ → ℤ → String → List String → Exec S GoError (Unit {0})

pub record ExpenseList : Type 0 where
  pub expenses : List Expense
  pub per_page : ℤ
  pub page : ℤ
  pub total_data : ℕ
  pub search : String
  pub status : String
  pub sort_by : String
  pub sort_order : String

-- The `switch err` of `ApproveExpense` and of `RejectExpense`: the text for a wrong status and that
-- for any other error are the arguments.
decision_error : String → String → GoError → Response String
decision_error wrong_status other (global expense_not_found) = write_error 404 "expense not found"
decision_error wrong_status other (global invalid_expense_status) = write_error 400 wrong_status
decision_error wrong_status other (global unauthorized_access) =
    write_error 403 "manager access required"
decision_error wrong_status other _ = write_error 500 other

module _ {S : Type 0} (service : ServiceApi S) where
  answer : {A : Type 0} → ℕ → Result GoError A × S → Response A × S
  answer status (err e, s) = (handle_service_error e, s)
  answer status (ok a, s) = (write_json status a, s)

  pub create_expense_handler :
      Env → Option User → Option CreateExpenseDto → S → Response Expense × S
  unfolding answer
  create_expense_handler env none body s = (write_error 401 "unauthorized", s)
  create_expense_handler env (some user) none s = (write_error 400 "invalid request body", s)
  create_expense_handler env (some user) (some dto) s =
      answer 201 (service.create_expense env dto user.id s)

  get_parsed : User → Option ℤ → S → Response Expense × S
  unfolding answer
  get_parsed user none s = (write_error 400 "invalid expense ID", s)
  get_parsed user (some id) s = answer 200 (service.get_expense_by_id id user.id user.permissions s)

  pub get_expense_handler : Option User → String → S → Response Expense × S
  unfolding get_parsed
  get_expense_handler none id s = (write_error 401 "unauthorized", s)
  get_expense_handler (some user) id s = get_parsed user (parse_int id) s

  counted : ExpenseQueryParams → List Expense → Result GoError ℕ × S → Response ExpenseList × S
  counted params expenses (err e, s) = (write_error 500 "failed to retrieve expenses count", s)
  counted params expenses (ok total, s) = (
    write_json 200 (record {
      expenses = expenses;
      per_page = params.per_page;
      page = params.page;
      total_data = total;
      search = params.search;
      status = params.status;
      sort_by = params.sort_by;
      sort_order = params.sort_order;
    }),
    s,
  )

  -- The service sets the defaults of the caller's parameters, so the count sees them.
  listed : User → ExpenseQueryParams → Result GoError (List Expense) × S → Response ExpenseList × S
  unfolding counted
  listed user params (err e, s) = (write_error 500 "failed to retrieve expenses", s)
  listed user params (ok expenses, s) =
      counted (set_defaults params) expenses
        (service.get_expenses_count_for_user user.id user.permissions (set_defaults params) s)

  -- `get` is `r.URL.Query().Get`.
  pub get_all_expenses_handler : Option User → (String → String) → S → Response ExpenseList × S
  unfolding listed
  get_all_expenses_handler none get s = (write_error 401 "unauthorized", s)
  get_all_expenses_handler (some user) get s =
      let params = parse_from_request get no_params in
      listed user params (service.get_expenses_for_user user.id user.permissions params s)

  decided :
      String → (GoError → Response String) → Result GoError (Unit {0}) × S → Response String × S
  decided status refused (err e, s) = (refused e, s)
  decided status refused (ok u, s) = (write_json 200 status, s)

  approve_parsed : Env → User → Option ℤ → S → Response String × S
  unfolding decided decision_error
  approve_parsed env user none s = (write_error 400 "invalid expense ID", s)
  approve_parsed env user (some id) s =
      decided "approved"
        (decision_error "expense cannot be approved in current status" "failed to approve expense")
        (service.approve_expense env id user.id user.permissions s)

  -- The answer is the `status` of the JSON object.
  pub approve_expense_handler : Env → Option User → String → S → Response String × S
  unfolding approve_parsed
  approve_expense_handler env none id s = (write_error 401 "unauthorized", s)
  approve_expense_handler env (some user) id s = approve_parsed env user (parse_int id) s

  reject_valid : Env → User → ℤ → RejectExpenseDto → Option AppError → S → Response String × S
  unfolding decided decision_error
  reject_valid env user id dto (some e) s = (write_error 400 (app_error_text e), s)
  reject_valid env user id dto none s =
      decided "rejected"
        (decision_error "expense cannot be rejected in current status" "failed to reject expense")
        (service.reject_expense env id user.id dto.reason user.permissions s)

  reject_parsed : Env → User → Option ℤ → Option RejectExpenseDto → S → Response String × S
  unfolding reject_valid
  reject_parsed env user none body s = (write_error 400 "invalid expense ID", s)
  reject_parsed env user (some id) none s = (write_error 400 "invalid request body", s)
  reject_parsed env user (some id) (some dto) s =
      reject_valid env user id dto (validate_reject dto) s

  pub reject_expense_handler :
      Env → Option User → String → Option RejectExpenseDto → S → Response String × S
  unfolding reject_parsed
  reject_expense_handler env none id body s = (write_error 401 "unauthorized", s)
  reject_expense_handler env (some user) id body s = reject_parsed env user (parse_int id) body s
