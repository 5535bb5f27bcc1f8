-- ===== src/Expense/Service.antt =====
-- internal/expense/service.go. An operation takes what it reads from outside, and returns its result
-- with the new state. Logging is left out.
pub mod Effects
pub mod Approval
pub mod Rejection
pub mod Creation
pub mod Access
pub mod Listing
pub mod Retrying
use expense_management.Prelude.{
  ℕ, String, List, Option, none, some, ◌||◌, ℤ, eq_ℤ, str_eq, show, ◌<>◌, if◌then◌else◌, ok, err,
  Exec, pure, fail, map_err, check, ◌>>=◌, ◌>>◌,
}
use expense_management.Errors.{
  AppError, GoError, global, app, msg, wrap, expense_not_found, unauthorized_access,
  invalid_expense_status,
}
use expense_management.Auth.Permissions.{
  can_approve_expenses, can_reject_expenses, can_retry_payments, can_view_all_expenses,
}
use expense_management.Events.{
  Event, expense_approved, payment_completed, new_expense_approved_event, type_name,
  event_type_payment_completed,
}
use expense_management.Events.Bus.{EventBus, publish, subscribe}
use expense_management.World.{World, Env, on_db, read_db, spawn}
use expense_management.Expense.Dto.{CreateExpenseDto, validate_create}
use expense_management.Expense.Query.{ExpenseQueryParams, set_defaults}
use expense_management.Expense.Entity.{
  Expense, new_expense, approve, reject, can_be_approved, can_be_rejected, needs_payment_processing,
  to_data_model, from_data_model, from_data_model_slice, expense_status_approved,
  expense_status_completed,
}
use expense_management.Expense.Repository.{RepositoryApi}

-- `PaymentProcessorAPI`, over the state of the services. `View` is what `GetPaymentStatus` answers,
-- which the service does not look at.
pub record PaymentProcessorApi (S View : Type 0) : Type 0 where
  pub process_payment : Env → ℤ → ℤ → Exec S GoError String
  pub retry_payment : Env → ℤ → String → Exec S GoError (Unit {0})
  pub get_payment_status : ℤ → Exec S GoError View

-- `if err := …; err != nil { return err }` on a validation.
abbrev pub valid : {S : Type 0} → Option AppError → Exec S GoError (Unit {0})
valid none s = (ok tt, s)
valid (some e) s = (err (app e), s)

-- `"exp-%d-%d"`
unfoldable pub external_id_of : ℤ → ℤ → String
external_id_of expense_id amount = "exp-" <> show expense_id <> "-" <> show amount

module _ {Db H View : Type 0} (repo : RepositoryApi Db)
    (processor : PaymentProcessorApi (World Db H) View) (bus : EventBus H) where
  -- The end of `CreateExpense`, which publishes the event of an expense that was approved at once.
  announce_created : Env → Expense → Exec (World Db H) GoError Expense
  announce_created env e =
      if needs_payment_processing e
      then (do
        let event =
            new_expense_approved_event env.uuid (env.clock 3) e.id e.amount_idr e.user_id "IDR"
        spawn (publish (expense_approved event) bus)
        pure e)
      else pure e

  -- The clock is read by the validation, by `NewExpense`, by `Approve` and for the event.
  pub create_expense : Env → CreateExpenseDto → ℤ → Exec (World Db H) GoError Expense
  unfolding announce_created
  create_expense env req user_id = do
    valid (validate_create (env.clock 0) req)
    let expense = new_expense (env.clock 1) (env.clock 2) user_id req
    row ← map_err (wrap "failed to create expense") (on_db (repo.create (to_data_model expense)))
    announce_created env (record expense { id = row.id })

  pub get_expense_by_id : ℤ → ℤ → List String → Exec (World Db H) GoError Expense
  get_expense_by_id id user_id perms = do
    row ← map_err (λ e. global expense_not_found) (read_db (repo.get_by_id id))
    let expense = from_data_model row
    check (eq_ℤ expense.user_id user_id || can_view_all_expenses perms) (global unauthorized_access)
    pure expense

  pub update_expense_status : Env → ℤ → String → ℤ → List String → Exec (World Db H) GoError Expense
  update_expense_status env id status user_id perms = do
    on_db (repo.update_status id status (env.clock 0) (env.clock 1))
    get_expense_by_id id user_id perms

  pub submit_expense_for_approval : Env → ℤ → ℤ → List String → Exec (World Db H) GoError Expense
  submit_expense_for_approval env id user_id perms =
      update_expense_status env id "submitted" user_id perms

  unfoldable pub get_all_expenses : ExpenseQueryParams → Exec (World Db H) GoError (List Expense)
  get_all_expenses params = do
    rows ← read_db (repo.get_all_expenses (set_defaults params))
    pure (from_data_model_slice rows)

  unfoldable pub get_expenses_for_user :
      ℤ → List String → ExpenseQueryParams → Exec (World Db H) GoError (List Expense)
  unfolding get_all_expenses
  get_expenses_for_user user_id perms params =
      let defaulted = set_defaults params in
      if can_view_all_expenses perms then get_all_expenses defaulted else (do
        rows ← read_db (repo.get_by_user_id user_id defaulted)
        pure (from_data_model_slice rows))

  unfoldable pub get_expenses_count_for_user :
      ℤ → List String → ExpenseQueryParams → Exec (World Db H) GoError ℕ
  get_expenses_count_for_user user_id perms params =
      if can_view_all_expenses perms
      then read_db (repo.count_all_expenses params)
      else read_db (repo.count_by_user_id user_id params)

  -- The end of `ApproveExpense`, once the expense may be approved.
  store_approved : Env → ℤ → Expense → Exec (World Db H) GoError (Unit {0})
  store_approved env id approved = do
    on_db (repo.update (env.clock 1) (to_data_model approved))
    let event =
        new_expense_approved_event env.uuid (env.clock 2) id approved.amount_idr approved.user_id
          "IDR"
    spawn (publish (expense_approved event) bus)

  pub approve_expense : Env → ℤ → ℤ → List String → Exec (World Db H) GoError (Unit {0})
  approve_expense env id manager_id perms = do
    check (can_approve_expenses perms) (global unauthorized_access)
    row ← map_err (λ e. global expense_not_found) (read_db (repo.get_by_id id))
    let expense = from_data_model row
    check (can_be_approved expense) (global invalid_expense_status)
    store_approved env id (approve (env.clock 0) expense)

  pub reject_expense : Env → ℤ → ℤ → String → List String → Exec (World Db H) GoError (Unit {0})
  reject_expense env id manager_id reason perms = do
    check (can_reject_expenses perms) (global unauthorized_access)
    row ← map_err (λ e. global expense_not_found) (read_db (repo.get_by_id id))
    let expense = from_data_model row
    check (can_be_rejected expense) (global invalid_expense_status)
    let rejected = reject (env.clock 0) expense
    on_db (repo.update (env.clock 1) (to_data_model rejected))

  pub retry_payment : Env → ℤ → List String → Exec (World Db H) GoError (Unit {0})
  unfolding external_id_of
  retry_payment env id perms = do
    check (can_retry_payments perms) (global unauthorized_access)
    expense ← map_err (λ e. global expense_not_found) (read_db (repo.get_by_id id))
    check (str_eq expense.expense_status expense_status_approved) (global invalid_expense_status)
    map_err (λ e. global invalid_expense_status) (processor.get_payment_status id)
    map_err (wrap "payment retry failed")
        (processor.retry_payment env id (external_id_of id expense.amount_idr))

  pub handle_payment_completed : Env → Event → Exec (World Db H) GoError (Unit {0})
  handle_payment_completed env (payment_completed e) =
      map_err (wrap ("expense status update failed for expense " <> show e.expense_id)) (
        on_db
          (repo.update_status e.expense_id expense_status_completed (env.clock 0) (env.clock 1)))
  handle_payment_completed env event =
      fail (msg ("expected PaymentCompletedEvent, got " <> type_name event))

-- `RegisterEventHandlers`, for the handler's name.
unfoldable pub register_event_handlers : {H : Type 0} → H → EventBus H → EventBus H
unfolding subscribe
register_event_handlers handler bus = subscribe event_type_payment_completed handler bus
