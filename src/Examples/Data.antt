-- ===== src/Examples/Data.antt =====
-- The data of the examples.
use expense_management.Prelude.{
  ℕ, Bool, String, List, [], ◌∷◌, none, pos, str_eq, ok, pure, if◌then◌else◌,
}
use expense_management.Events.{event_type_expense_approved, event_type_payment_completed}
use expense_management.Events.Bus.{EventBus, new_event_bus, subscribe}
use expense_management.World.{World, Env}
use expense_management.Gateway.Types.{response}
use expense_management.Database.{Table, IsTable, IsGreatestFirst}
use expense_management.Database.Memory.{memory, memory-IsTable, memory-IsGreatestFirst}
use expense_management.Expense.Dto.{CreateExpenseDto}
use expense_management.Expense.Entity.{ExpenseRow}
use expense_management.Expense.Repository as ExpenseRepository
use expense_management.Expense.Postgres.{expense_repository, apply_query_filters_for_count}
use expense_management.Expense.Postgres.Meets as ExpenseMeets
use expense_management.Expense.Service.{PaymentProcessorApi}
use expense_management.Payment.Entity.{Payment}
use expense_management.Payment.Repository as PaymentRepository
use expense_management.Payment.Postgres as PaymentPostgres

-- Whether a text is matched by a pattern: here, only if it is the pattern.
abbrev pub ilike : String → String → Bool
ilike text pattern = str_eq text pattern

abbrev by_creation : String → ExpenseRow → ℕ
by_creation order r = r.created_at

abbrev pub expense_table : Table (List ExpenseRow) ExpenseRow
expense_table = memory by_creation (λ r. r.id) ExpenseMeets.set_id

abbrev pub expense_rows : List ExpenseRow → List ExpenseRow
expense_rows db = db

abbrev pub expense_table_laws : IsTable expense_table expense_rows (λ r. r.id) ExpenseMeets.set_id
expense_table_laws = memory-IsTable by_creation (λ r. r.id) ExpenseMeets.set_id

abbrev pub expenses : ExpenseRepository.RepositoryApi (List ExpenseRow)
expenses = expense_repository ilike expense_table

abbrev pub expense_laws :
    ExpenseRepository.IsRepository expenses expense_rows
      (apply_query_filters_for_count ilike expense_table)
expense_laws =
    ExpenseMeets.expense_repository-IsRepository ilike expense_table expense_rows expense_table_laws

abbrev payment_order : String → Payment → ℕ
payment_order order p = if str_eq order "created_at DESC" then p.created_at else 0

abbrev pub payment_table : Table (List Payment) Payment
payment_table = memory payment_order (λ p. p.id) PaymentPostgres.set_id

abbrev pub payment_rows : List Payment → List Payment
payment_rows db = db

abbrev pub payment_table_laws :
    IsTable payment_table payment_rows (λ p. p.id) PaymentPostgres.set_id
payment_table_laws = memory-IsTable payment_order (λ p. p.id) PaymentPostgres.set_id

abbrev pub payment_table_newest :
    IsGreatestFirst payment_table payment_rows "created_at DESC" (λ p. p.created_at)
payment_table_newest =
    memory-IsGreatestFirst payment_order (λ p. p.id) PaymentPostgres.set_id "created_at DESC"

abbrev pub payments : PaymentRepository.RepositoryApi (List Payment)
payments = PaymentPostgres.payment_repository payment_table

abbrev pub payment_laws : PaymentRepository.IsRepository payments payment_rows
payment_laws =
    PaymentPostgres.payment_repository-IsRepository payment_table payment_rows payment_table_laws
      payment_table_newest

-- A processor that accepts every payment.
abbrev pub processor : PaymentProcessorApi (World (List ExpenseRow) ℕ) (Unit {0})
processor = record {
  process_payment = λ env id amount. pure "exp";
  retry_payment = λ env id external_id. pure tt;
  get_payment_status = λ id. pure tt;
}

-- Handler 7 makes payments, handler 8 completes expenses.
abbrev pub bus : EventBus ℕ
bus =
    subscribe event_type_payment_completed 8 (subscribe event_type_expense_approved 7 new_event_bus)

abbrev pub env : Env
env = record { clock = λ n. n; uuid = "u-1"; api = response 200 (ok "gw-1") }

abbrev pub lunch : ExpenseRow
lunch = record {
  id = pos 1;
  user_id = pos 4;
  amount_idr = pos 2000000;
  description = "team lunch";
  category = "makan";
  receipt_url = none;
  receipt_file_name = none;
  expense_status = "pending_approval";
  expense_date = 0;
  submitted_at = 0;
  processed_at = none;
  created_at = 0;
  updated_at = 0;
}

abbrev pub office : World (List ExpenseRow) ℕ
office = record { db = lunch ∷ []; job_queue = []; spawned = [] }

abbrev pub taxi : CreateExpenseDto
taxi = record {
  amount_idr = pos 50000;
  description = "taxi";
  category = "perjalanan";
  expense_date = 0;
  receipt_url = none;
  receipt_file_name = none;
}

abbrev pub first_payment : Payment
first_payment = record {
  id = pos 1;
  expense_id = pos 1;
  external_id = "exp-1-2000000";
  amount_idr = pos 2000000;
  status = "pending";
  payment_method = none;
  gateway_response = none;
  failure_reason = none;
  retry_count = pos 0;
  processed_at = none;
  created_at = 0;
  updated_at = 0;
}

abbrev pub bank : World (List Payment) ℕ
bank = record { db = first_payment ∷ []; job_queue = []; spawned = [] }
