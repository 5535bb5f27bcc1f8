-- ===== src/Payment/Orchestrator.antt =====
-- internal/payment/orchestrator.go and internal/payment/event_handler.go. `ProcessPayment` returns an
-- external id beside some errors, which its only caller drops; so does the model.
pub mod Retry
pub mod Redelivery
use expense_management.Prelude.{
  ℕ, String, Option, none, some, Bool, true, false, ◌&&◌, ℤ, show, ◌<>◌, if◌then◌else◌, Exec, pure,
  fail, map_err, check, ◌>>=◌, ◌>>◌,
}
use text.Mathlib.Text.{find?}
use expense_management.Errors.{GoError, msg, wrap, error_text}
use expense_management.World.{World, Env}
use expense_management.Events.{Event, expense_approved, type_name, event_type_expense_approved}
use expense_management.Events.Bus.{EventBus, subscribe}
use expense_management.Payment.Entity.{PaymentView, can_retry, to_view}
use expense_management.Payment.Repository.{RepositoryApi}
use expense_management.Payment.Service
use expense_management.Expense.Service.{PaymentProcessorApi, external_id_of}

is_found : Option ℕ → Bool
is_found none = false
is_found (some i) = true

-- `strings.Contains`
contains : String → String → Bool
unfolding is_found
contains s t = is_found (find? s t)

-- Which error a failed `CreatePayment` becomes.
creation_error : String → GoError → GoError
unfolding contains
creation_error external_id e =
    if contains (error_text e) "external_id" && contains (error_text e) "already exists"
    then msg ("external_id " <> external_id <> " already exists")
    else wrap "failed to create payment record" e

module _ {Db H : Type 0} (repository : RepositoryApi Db) (capacity : ℕ) where
  pub process_payment : Env → ℤ → ℤ → Exec (World Db H) GoError String
  unfolding external_id_of creation_error
  process_payment env expense_id amount = do
    let external_id = external_id_of expense_id amount
    map_err (creation_error external_id)
        (Service.create_payment repository capacity env expense_id external_id amount)
    map_err (wrap "payment processing failed") (
        Service.process_payment repository capacity env
          (record { amount = amount; external_id = external_id }))
    pure external_id

  pub retry_payment : Env → ℤ → String → Exec (World Db H) GoError (Unit {0})
  retry_payment env expense_id external_id = do
    payment ←
        map_err (wrap "payment record not found")
          (Service.get_payment_by_expense_id repository capacity expense_id)
    check (can_retry payment) (
        msg (
          "payment cannot be retried (status: "
          <> payment.status
          <> ", retries: "
          <> show payment.retry_count
          <> ")"))
    map_err (wrap "payment retry failed") (
        Service.retry_payment repository capacity env
          (record { amount = payment.amount_idr; external_id = external_id }))
    pure tt

  pub get_payment_status : ℤ → Exec (World Db H) GoError PaymentView
  get_payment_status expense_id = do
    payment ←
        map_err (wrap "failed to get payment status")
          (Service.get_payment_by_expense_id repository capacity expense_id)
    pure (to_view payment)

  -- `NewPaymentOrchestrator`, as the expense service's `PaymentProcessorAPI`.
  unfoldable pub orchestrator : PaymentProcessorApi (World Db H) PaymentView
  unfolding process_payment retry_payment get_payment_status
  orchestrator = record {
    process_payment = process_payment;
    retry_payment = retry_payment;
    get_payment_status = get_payment_status;
  }

  -- `EventHandler.HandleExpenseApproved`
  pub handle_expense_approved : Env → Event → Exec (World Db H) GoError (Unit {0})
  unfolding process_payment
  handle_expense_approved env (expense_approved e) = do
    map_err (wrap ("payment processing failed for expense " <> show e.expense_id))
        (process_payment env e.expense_id e.amount)
    pure tt
  handle_expense_approved env event =
      fail (msg ("expected ExpenseApprovedEvent, got " <> type_name event))

-- `EventHandler.RegisterEventHandlers`, for the handler's name.
unfoldable pub register_event_handlers : {H : Type 0} → H → EventBus H → EventBus H
unfolding subscribe
register_event_handlers handler bus = subscribe event_type_expense_approved handler bus
