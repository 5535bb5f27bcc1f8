-- ===== src/Expense/Postgres.antt =====
-- internal/expense/postgres/expense.go: the repository over a table of the database. Postgres'
-- `ILIKE` is a parameter. gorm joins the conditions of a query by AND.
pub mod Meets
use expense_management.Prelude.{
  ℕ, String, List, Bool, true, ◌&&◌, ◌||◌, some, ℤ, ◌<>◌, str_eq, if◌then◌else◌, Result, ok, err,
  Exec,
}
use expense_management.Errors.{GoError, global, expense_not_found, record_not_found}
use expense_management.Database.{Table, Select}
use expense_management.Expense.Entity.{ExpenseRow}
use expense_management.Expense.Query.{ExpenseQueryParams, get_offset}
use expense_management.Expense.Repository.{RepositoryApi, has_id, owned_by, set_status}

-- `if err == gorm.ErrRecordNotFound { return nil, expense.ErrExpenseNotFound }`
abbrev or_not_found : Result GoError ExpenseRow → Result GoError ExpenseRow
or_not_found (ok r) = ok r
or_not_found (err record_not_found) = err (global expense_not_found)
or_not_found (err e) = err e

direction : String → String → String
direction column sort_order =
    if str_eq sort_order "desc" then column <> " DESC" else column <> " ASC"

-- The `switch` on `SortBy`.
order_clause : String → String → String
unfolding direction
order_clause sort_by sort_order =
    if str_eq sort_by "createdAt"
    then direction "created_at" sort_order
    else if str_eq sort_by "submittedAt"
    then direction "submitted_at" sort_order
    else if str_eq sort_by "amount"
    then direction "amount_idr" sort_order
    else "created_at DESC"

module _ {Db : Type 0} (ilike : String → String → Bool) (table : Table Db ExpenseRow) where
  -- `applyQueryFiltersForCount`, as the condition that it adds.
  pub apply_query_filters_for_count : ExpenseQueryParams → ExpenseRow → Bool
  apply_query_filters_for_count q r =
      (if str_eq q.search ""
        then true
        else ilike r.description ("%" <> q.search <> "%")
          || ilike r.category ("%" <> q.search <> "%"))
      && (if str_eq q.category_id "" then true else str_eq r.category q.category_id)
      && (if str_eq q.status "" then true else str_eq r.expense_status q.status)

  -- `applyQueryFilters`, on a query with a condition. Its filters are the same three statements.
  apply_query_filters : (ExpenseRow → Bool) → ExpenseQueryParams → Select ExpenseRow
  unfolding apply_query_filters_for_count order_clause
  apply_query_filters base q = record {
    condition = λ r. base r && apply_query_filters_for_count q r;
    order = order_clause q.sort_by q.sort_order;
    limit = q.per_page;
    offset = get_offset q;
  }

  pub get_by_id : ℤ → Db → Result GoError ExpenseRow
  get_by_id id db = or_not_found (table.first (has_id id) db)

  pub get_by_user_id : ℤ → ExpenseQueryParams → Db → Result GoError (List ExpenseRow)
  unfolding apply_query_filters
  get_by_user_id user_id q db = table.find_page (apply_query_filters (owned_by user_id) q) db

  pub get_all_expenses : ExpenseQueryParams → Db → Result GoError (List ExpenseRow)
  unfolding apply_query_filters
  get_all_expenses q db = table.find_page (apply_query_filters (λ r. true) q) db

  pub count_by_user_id : ℤ → ExpenseQueryParams → Db → Result GoError ℕ
  unfolding apply_query_filters_for_count
  count_by_user_id user_id q db =
      table.count (λ r. owned_by user_id r && apply_query_filters_for_count q r) db

  pub count_all_expenses : ExpenseQueryParams → Db → Result GoError ℕ
  unfolding apply_query_filters_for_count
  count_all_expenses q db = table.count (apply_query_filters_for_count q) db

  pub update : ℕ → ExpenseRow → Exec Db GoError (Unit {0})
  update now r db = table.save (record r { updated_at = now }) db

  pub update_status : ℤ → String → ℕ → ℕ → Exec Db GoError (Unit {0})
  update_status id status processed_at now db =
      table.updates (has_id id) (set_status status processed_at now) db

  -- `NewExpenseRepository`
  unfoldable pub expense_repository : RepositoryApi Db
  unfolding get_by_id get_by_user_id get_all_expenses count_by_user_id count_all_expenses update
      update_status
  expense_repository = record {
    create = table.create;
    get_by_id = get_by_id;
    get_by_user_id = get_by_user_id;
    get_all_expenses = get_all_expenses;
    count_by_user_id = count_by_user_id;
    count_all_expenses = count_all_expenses;
    update = update;
    update_status = update_status;
  }
