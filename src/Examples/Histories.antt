-- ===== src/Examples/Histories.antt =====
-- Expenses over several calls: a taxi is booked, the lunch is approved, and then it is paid.
use expense_management.Prelude.{ℕ, List, [], ◌∷◌, some, ◌≡◌, refl, pos, find, All, inl, arith}
use expense_management.World.{World}
use expense_management.Events.{
  PaymentCompletedEvent, new_payment_completed_event, payment_completed,
}
use expense_management.Expense.Entity.{ExpenseRow}
use expense_management.Expense.Repository.{has_id}
use expense_management.Expense.Service.{create_expense, approve_expense, handle_payment_completed}
use expense_management.Expense.History.{Calls, start, next, created, approved, completed}
use expense_management.Expense.History.Life.{Continues, calls-Continues}
use expense_management.Expense.History.Settled.{IsSettled, calls-IsSettled}
use expense_management.Examples.Data.{
  expense_rows, expenses, expense_laws, processor, bus, env, lunch, office, taxi,
}

abbrev lunch_paid : PaymentCompletedEvent
lunch_paid =
    new_payment_completed_event "u-2" 5 "1" (pos 1) "exp-1-2000000" (pos 2000000) "success" "gw-1"

abbrev booked : World (List ExpenseRow) ℕ
booked = (create_expense expenses processor bus env taxi (pos 4) office).1

abbrev signed : World (List ExpenseRow) ℕ
signed =
    (approve_expense expenses processor bus env (pos 1) (pos 9) ("approve_expenses" ∷ []) booked).1

abbrev settled : World (List ExpenseRow) ℕ
settled =
    (handle_payment_completed expenses processor bus env (payment_completed lunch_paid) signed).1

abbrev day : Calls expenses processor bus expense_rows office settled
day =
    next
      (next (next start (created env taxi (pos 4)))
        (approved env (pos 1) (pos 9) ("approve_expenses" ∷ [])))
      (completed env lunch_paid)

calls-Continues_example :
    (q : ExpenseRow) × (find (has_id (pos 1)) (expense_rows settled.db) ≡ some q)
    × Continues lunch q
calls-Continues_example =
    calls-Continues expenses processor bus expense_rows expense_laws day (pos 1) lunch refl

calls-IsSettled_example : All IsSettled (expense_rows settled.db)
calls-IsSettled_example =
    calls-IsSettled expenses processor bus expense_rows expense_laws day
      ((omega arith, omega arith, inl (refl, omega arith, refl)), tt)
