-- ===== src/Payment/Orchestrator/Redelivery.antt =====
-- An approval event that arrives again, in internal/payment/event_handler.go.
use expense_management.Prelude.{
  ℕ, String, List, ◌≡◌, ok, err, ◌<>◌, show, bind-map_err, pure, map_err, ◌>>=◌,
}
use expense_management.Errors.{GoError, msg, wrap}
use expense_management.World.{World, Env}
use expense_management.Events.{ExpenseApprovedEvent, expense_approved}
use expense_management.Expense.Service.{external_id_of}
use expense_management.Payment.Entity.{Payment}
use expense_management.Payment.Repository.{RepositoryApi, IsRepository}
use expense_management.Payment.Service.{create_payment}
use expense_management.Payment.Service as PaymentService
use expense_management.Payment.Service.Creation.{create_payment_present}
use expense_management.Payment.Orchestrator.{
  creation_error, process_payment, handle_expense_approved,
}

module _ {Db H : Type 0} (repository : RepositoryApi Db) (capacity : ℕ) (rows : Db → List Payment)
    (laws : IsRepository repository rows) (env : Env) (e : ExpenseApprovedEvent)
    (w : World Db H) where
  abbrev external_id : String
  external_id = external_id_of e.expense_id e.amount

  process_payment_present :
      (p : Payment)
      → repository.get_by_external_id external_id w.db ≡ ok p
      → process_payment repository capacity env e.expense_id e.amount w ≡ (
        err (creation_error external_id (msg ("external_id " <> external_id <> " already exists"))),
        w,
      )
  unfolding process_payment
  process_payment_present p present =
      bind-map_err (creation_error external_id)
        (create_payment repository capacity env e.expense_id external_id e.amount)
        (λ q.
          map_err (wrap "payment processing failed") (
            PaymentService.process_payment repository capacity env
              (record { amount = e.amount; external_id = external_id }))
          >>= λ r. pure external_id)
        w w _
        (create_payment_present repository capacity rows laws env e.expense_id external_id e.amount
          w p present)

  -- For every payment repository that keeps its laws, if a payment is found under the external id
  -- that is made of the event's expense and amount, then handling the expense.approved event
  -- answers an error and leaves the state as it was: an event that arrives again neither makes
  -- nor processes a payment.
  pub handle_expense_approved_twice :
      (p : Payment)
      → repository.get_by_external_id (external_id_of e.expense_id e.amount) w.db ≡ ok p
      → (x : GoError) × (handle_expense_approved repository capacity env (expense_approved e) w
          ≡ (err x, w))
  unfolding handle_expense_approved
  handle_expense_approved_twice p present = (
    wrap ("payment processing failed for expense " <> show e.expense_id)
        (creation_error external_id (msg ("external_id " <> external_id <> " already exists"))),
    bind-map_err (wrap ("payment processing failed for expense " <> show e.expense_id))
        (process_payment repository capacity env e.expense_id e.amount) (λ u. pure tt) w w _
        (process_payment_present p present),
  )
