-- ===== src/Expense/Postgres/Meets.antt =====
-- The repository of internal/expense/postgres/expense.go keeps what the service relies on.
use expense_management.Prelude.{
  String, List, [], ◌∷◌, Bool, true, ◌&&◌, ◌≡◌, arith, ℤ, All, Result, ok, err, eq_ℤ_iff,
}
use mathlib.Core.List.{Memᴰ}
use expense_management.Errors.{GoError, record_not_found}
use expense_management.Database.{Table, IsTable}
use expense_management.Expense.Entity.{ExpenseRow}
use expense_management.Expense.Repository.{IsRepository, has_id, owned_by}
use expense_management.Expense.Postgres.{
  or_not_found, apply_query_filters, apply_query_filters_for_count, expense_repository,
}

abbrev pub set_id : ℤ → ExpenseRow → ExpenseRow
set_id id r = record r { id = id }

or_not_found-eq_ok :
    (x : Result GoError ExpenseRow) (r : ExpenseRow) → or_not_found x ≡ ok r → x ≡ ok r
or_not_found-eq_ok (ok s) r h = h
or_not_found-eq_ok (err record_not_found) r h = cc
or_not_found-eq_ok (err _) r h = cc

-- What holds of every row that passes both conditions.
split_condition :
    (user_id : ℤ) (p : ExpenseRow → Bool) (stored : List ExpenseRow) (rs : List ExpenseRow)
    → All (λ r. ((owned_by user_id r && p r) ≡ true) × Memᴰ r stored) rs
    → All (λ r. (r.user_id ≡ user_id) × (p r ≡ true) × Memᴰ r stored) rs
split_condition user_id p stored [] h = tt
split_condition user_id p stored (r ∷ rs) ((h, m), hs) = (
  (ground (arith, eq_ℤ_iff r.user_id user_id), ground arith, m),
  split_condition user_id p stored rs hs,
)

module _ {Db : Type 0} (ilike : String → String → Bool) (table : Table Db ExpenseRow)
    (rows : Db → List ExpenseRow) (laws : IsTable table rows (λ r. r.id) set_id) where
  -- For every table that keeps the laws of the database, and every ILIKE, the Postgres repository
  -- of expenses keeps all laws that the expense service relies on, with the filters of the count
  -- query as the condition of both lists and counts.
  pub expense_repository-IsRepository :
      IsRepository (expense_repository ilike table) rows (apply_query_filters_for_count ilike table)
  unfolding expense_repository apply_query_filters
  expense_repository-IsRepository = record {
    create_ok = laws.create_ok;
    create_err = laws.create_err;
    get_by_id_ok = λ id db r h. laws.first_ok (has_id id) db r (or_not_found-eq_ok _ r h);
    get_by_user_id_ok = λ user_id q db rs n h e.
        let (each, few, fewer) =
          laws.find_page_ok (apply_query_filters ilike table (owned_by user_id) q) db rs n h e in
        (
          split_condition user_id (apply_query_filters_for_count ilike table q) (rows db) rs each,
          few,
          fewer,
        );
    get_all_expenses_ok = λ q db rs n h e.
        laws.find_page_ok (apply_query_filters ilike table (λ r. true) q) db rs n h e;
    count_by_user_id_ok = λ user_id q db n h. laws.count_ok _ db n h;
    count_all_expenses_ok = λ q db n h. laws.count_ok _ db n h;
    update_ok = λ now r old db there h. laws.save_ok (record r { updated_at = now }) old db there h;
    update_err = λ now r db e h. laws.save_err (record r { updated_at = now }) db e h;
    update_status_ok = λ id status processed_at now db h. laws.updates_ok _ _ db h;
    update_status_err = λ id status processed_at now db e h. laws.updates_err _ _ db e h;
  }
