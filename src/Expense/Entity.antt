-- ===== src/Expense/Entity.antt =====
-- internal/expense/expense.go and internal/core/datamodel/expense/expense.go: an expense and what
-- may be done with it. A time is a number, and a reading of the clock is an argument.
pub mod Lifecycle
use expense_management.Prelude.{
  ℕ, String, List, Option, none, some, Bool, ℤ, pos, ltb_ℤ, str_eq, if◌then◌else◌, map,
}
use expense_management.Expense.Dto.{CreateExpenseDto}

-- `expense.Expense`, and the row `expenseDatamodel.Expense`, which has the same fields.
pub record Expense : Type 0 where
  pub id : ℤ
  pub user_id : ℤ
  pub amount_idr : ℤ
  pub description : String
  pub category : String
  pub receipt_url : Option String
  pub receipt_file_name : Option String
  pub expense_status : String
  pub expense_date : ℕ
  pub submitted_at : ℕ
  pub processed_at : Option ℕ
  pub created_at : ℕ
  pub updated_at : ℕ

pub record ExpenseRow : Type 0 where
  pub id : ℤ
  pub user_id : ℤ
  pub amount_idr : ℤ
  pub description : String
  pub category : String
  pub receipt_url : Option String
  pub receipt_file_name : Option String
  pub expense_status : String
  pub expense_date : ℕ
  pub submitted_at : ℕ
  pub processed_at : Option ℕ
  pub created_at : ℕ
  pub updated_at : ℕ

abbrev pub expense_status_pending_approval : String
expense_status_pending_approval = "pending_approval"

abbrev pub expense_status_approved : String
expense_status_approved = "approved"

abbrev pub expense_status_rejected : String
expense_status_rejected = "rejected"

abbrev pub expense_status_completed : String
expense_status_completed = "completed"

abbrev pub auto_approval_threshold : ℤ
auto_approval_threshold = pos 1000000

unfoldable pub can_be_approved : Expense → Bool
can_be_approved e = str_eq e.expense_status expense_status_pending_approval

unfoldable pub can_be_rejected : Expense → Bool
can_be_rejected e = str_eq e.expense_status expense_status_pending_approval

unfoldable pub should_be_auto_approved : Expense → Bool
should_be_auto_approved e = ltb_ℤ e.amount_idr auto_approval_threshold

unfoldable pub approve : ℕ → Expense → Expense
approve now e = record e {
  expense_status = expense_status_approved;
  processed_at = some now;
  updated_at = now;
}

unfoldable pub reject : ℕ → Expense → Expense
reject now e = record e {
  expense_status = expense_status_rejected;
  processed_at = some now;
  updated_at = now;
}

unfoldable pub complete : ℕ → Expense → Expense
complete now e = record e {
  expense_status = expense_status_completed;
  processed_at = some now;
  updated_at = now;
}

unfoldable pub needs_payment_processing : Expense → Bool
needs_payment_processing e = str_eq e.expense_status expense_status_approved

-- The two readings are of `NewExpense` and of `Approve`. The id is 0 until the row is created.
unfoldable pub new_expense : ℕ → ℕ → ℤ → CreateExpenseDto → Expense
unfolding should_be_auto_approved approve
new_expense now approved_at user_id dto =
    let expense = fresh in
    if should_be_auto_approved expense then approve approved_at expense else expense
  where
    fresh : Expense
    fresh = record {
      id = pos 0;
      user_id = user_id;
      amount_idr = dto.amount_idr;
      description = dto.description;
      category = dto.category;
      receipt_url = dto.receipt_url;
      receipt_file_name = dto.receipt_file_name;
      expense_status = expense_status_pending_approval;
      expense_date = dto.expense_date;
      submitted_at = now;
      processed_at = none;
      created_at = now;
      updated_at = now;
    }

unfoldable pub to_data_model : Expense → ExpenseRow
to_data_model e = record {
  id = e.id;
  user_id = e.user_id;
  amount_idr = e.amount_idr;
  description = e.description;
  category = e.category;
  receipt_url = e.receipt_url;
  receipt_file_name = e.receipt_file_name;
  expense_status = e.expense_status;
  expense_date = e.expense_date;
  submitted_at = e.submitted_at;
  processed_at = e.processed_at;
  created_at = e.created_at;
  updated_at = e.updated_at;
}

unfoldable pub from_data_model : ExpenseRow → Expense
from_data_model e = record {
  id = e.id;
  user_id = e.user_id;
  amount_idr = e.amount_idr;
  description = e.description;
  category = e.category;
  receipt_url = e.receipt_url;
  receipt_file_name = e.receipt_file_name;
  expense_status = e.expense_status;
  expense_date = e.expense_date;
  submitted_at = e.submitted_at;
  processed_at = e.processed_at;
  created_at = e.created_at;
  updated_at = e.updated_at;
}

unfoldable pub from_data_model_slice : List ExpenseRow → List Expense
unfolding from_data_model
from_data_model_slice rows = map from_data_model rows
