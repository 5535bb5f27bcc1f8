-- ===== src/Examples/Expenses.antt =====
-- Expenses: creating, deciding, reading and listing.
use expense_management.Prelude.{[], ◌∷◌, refl, pos, length, ◌≤◌, All, mul64, sub64}
use expense_management.Database.Memory.{memory}
use expense_management.Auth.Permissions.{can_view_all_expenses, has_any_permission}
use expense_management.Events.{
  PaymentCompletedEvent, new_payment_completed_event, payment_completed,
}
use expense_management.Expense.Entity.{from_data_model, from_data_model_slice}
use expense_management.Expense.Query.{no_params, set_defaults, get_offset}
use expense_management.Expense.Repository.{IsRepository}
use expense_management.Expense.Postgres.{expense_repository, apply_query_filters_for_count}
use expense_management.Expense.Postgres.Meets.{expense_repository-IsRepository}
use expense_management.Expense.Service.{
  get_all_expenses, get_expenses_for_user, get_expenses_count_for_user, approve_expense,
  reject_expense, create_expense, get_expense_by_id, update_expense_status,
  handle_payment_completed, retry_payment,
}
use expense_management.Expense.Service.Approval.{ApproveOutcome, approve_expense_outcome}
use expense_management.Expense.Service.Rejection.{RejectOutcome, reject_expense_outcome}
use expense_management.Expense.Service.Creation.{CreateOutcome, create_expense_outcome}
use expense_management.Expense.Service.Access.{
  ReadOutcome, StatusOutcome, CompletionOutcome, get_expense_by_id_outcome,
  update_expense_status_outcome, handle_payment_completed_outcome,
}
use expense_management.Expense.Service.Listing.{
  IsListed, get_expenses_for_user-IsListed, get_expenses_for_user-count,
}
use expense_management.Expense.Service.Retrying.{RetryOutcome, retry_payment_outcome}
use expense_management.Examples.Data.{
  ilike, expense_table, expense_rows, expense_table_laws, expenses, expense_laws, processor, bus,
  env, lunch, office, taxi,
}

approve_expense_outcome_example :
    ApproveOutcome expenses processor bus expense_rows expense_laws env
      (pos 1)
      (pos 9)
      ("approve_expenses" ∷ [])
      office
      (approve_expense expenses processor bus env (pos 1) (pos 9) ("approve_expenses" ∷ []) office)
approve_expense_outcome_example =
    approve_expense_outcome expenses processor bus expense_rows expense_laws env (pos 1) (pos 9)
      ("approve_expenses" ∷ []) office

reject_expense_outcome_example :
    RejectOutcome expenses processor bus expense_rows expense_laws env
      (pos 1)
      (pos 9)
      "too dear"
      ("admin" ∷ [])
      office
      (reject_expense expenses processor bus env (pos 1) (pos 9) "too dear" ("admin" ∷ []) office)
reject_expense_outcome_example =
    reject_expense_outcome expenses processor bus expense_rows expense_laws env (pos 1) (pos 9)
      "too dear" ("admin" ∷ []) office

create_expense_outcome_example :
    CreateOutcome expenses processor bus expense_rows expense_laws env taxi
      (pos 4)
      office
      (create_expense expenses processor bus env taxi (pos 4) office)
create_expense_outcome_example =
    create_expense_outcome expenses processor bus expense_rows expense_laws env taxi (pos 4) office

get_expense_by_id_outcome_example :
    ReadOutcome expenses processor bus expense_rows expense_laws
      (pos 1)
      (pos 4)
      []
      office
      (get_expense_by_id expenses processor bus (pos 1) (pos 4) [] office)
get_expense_by_id_outcome_example =
    get_expense_by_id_outcome expenses processor bus expense_rows expense_laws (pos 1) (pos 4) []
      office

-- User 5 may not even read the expense.
update_expense_status_outcome_example :
    StatusOutcome expenses processor bus expense_rows expense_laws env
      (pos 1)
      "approved"
      (pos 5)
      []
      office
      (update_expense_status expenses processor bus env (pos 1) "approved" (pos 5) [] office)
update_expense_status_outcome_example =
    update_expense_status_outcome expenses processor bus expense_rows expense_laws env (pos 1)
      "approved" (pos 5) [] office

abbrev paid : PaymentCompletedEvent
paid =
    new_payment_completed_event "u-2" 5 "1" (pos 1) "exp-1-2000000" (pos 2000000) "success" "gw-1"

handle_payment_completed_outcome_example :
    CompletionOutcome expenses processor bus expense_rows expense_laws env office paid
      (handle_payment_completed expenses processor bus env (payment_completed paid) office)
handle_payment_completed_outcome_example =
    handle_payment_completed_outcome expenses processor bus expense_rows expense_laws env office
      paid

get_expenses_for_user-IsListed_example :
    All
      (IsListed expenses processor bus expense_rows expense_laws (pos 4) [] no_params office)
      (from_data_model lunch ∷ [])
    × (length (from_data_model lunch ∷ []) ≤ 100)
unfolding get_expenses_for_user get_expenses_count_for_user get_all_expenses set_defaults
    expense_repository memory from_data_model from_data_model_slice get_offset can_view_all_expenses
    has_any_permission mul64 sub64
get_expenses_for_user-IsListed_example =
    get_expenses_for_user-IsListed expenses processor bus expense_rows expense_laws (pos 4) []
      no_params office (from_data_model lunch ∷ []) refl

get_expenses_for_user-count_example : length (from_data_model lunch ∷ []) ≤ 1
unfolding get_expenses_for_user get_expenses_count_for_user get_all_expenses set_defaults
    expense_repository memory from_data_model from_data_model_slice get_offset can_view_all_expenses
    has_any_permission mul64 sub64
get_expenses_for_user-count_example =
    get_expenses_for_user-count expenses processor bus expense_rows expense_laws (pos 4) []
      no_params office (from_data_model lunch ∷ []) 1 refl refl

expense_repository-IsRepository_example :
    IsRepository
      (expense_repository ilike expense_table)
      expense_rows
      (apply_query_filters_for_count ilike expense_table)
expense_repository-IsRepository_example =
    expense_repository-IsRepository ilike expense_table expense_rows expense_table_laws

retry_payment_outcome_example :
    RetryOutcome expenses processor bus env
      (pos 1)
      ("retry_payments" ∷ [])
      office
      (retry_payment expenses processor bus env (pos 1) ("retry_payments" ∷ []) office)
retry_payment_outcome_example =
    retry_payment_outcome expenses processor bus env (pos 1) ("retry_payments" ∷ []) office
