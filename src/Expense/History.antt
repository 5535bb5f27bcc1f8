-- ===== src/Expense/History.antt =====
-- internal/expense/service.go: the expenses over a sequence of calls of the service. A creation, an
-- approval, a rejection and a completed payment are steps, with any arguments and whether they
-- succeed or not; everything else that runs beside them leaves the expenses alone.
-- `UpdateExpenseStatus`, which no handler calls, is left out.
pub mod Life
pub mod Settled
use expense_management.Prelude.{String, List, ◌≡◌, ℤ}
use expense_management.Events.{PaymentCompletedEvent, payment_completed}
use expense_management.Events.Bus.{EventBus}
use expense_management.World.{World, Env}
use expense_management.Expense.Dto.{CreateExpenseDto}
use expense_management.Expense.Entity.{ExpenseRow}
use expense_management.Expense.Repository.{RepositoryApi}
use expense_management.Expense.Service.{
  PaymentProcessorApi, create_expense, approve_expense, reject_expense, handle_payment_completed,
}

pub data Call {Db H View : Type 0} (repo : RepositoryApi Db)
    (processor : PaymentProcessorApi (World Db H) View) (bus : EventBus H)
    (rows : Db → List ExpenseRow) (w : World Db H) : World Db H → Type 0 where
  created :
      (env : Env) (req : CreateExpenseDto) (user_id : ℤ)
      → Call repo processor bus rows w (create_expense repo processor bus env req user_id w).1
  approved :
      (env : Env) (id manager_id : ℤ) (perms : List String)
      → Call repo processor bus rows w
          (approve_expense repo processor bus env id manager_id perms w).1
  rejected :
      (env : Env) (id manager_id : ℤ) (reason : String) (perms : List String)
      → Call repo processor bus rows w
          (reject_expense repo processor bus env id manager_id reason perms w).1
  completed :
      (env : Env) (e : PaymentCompletedEvent)
      → Call repo processor bus rows w
          (handle_payment_completed repo processor bus env (payment_completed e) w).1
  elsewhere : {v : World Db H} → rows v.db ≡ rows w.db → Call repo processor bus rows w v

pub data Calls {Db H View : Type 0} (repo : RepositoryApi Db)
    (processor : PaymentProcessorApi (World Db H) View) (bus : EventBus H)
    (rows : Db → List ExpenseRow) (w : World Db H) : World Db H → Type 0 where
  start : Calls repo processor bus rows w w
  next :
      {u v : World Db H}
      → Calls repo processor bus rows w u
      → Call repo processor bus rows u v
      → Calls repo processor bus rows w v
