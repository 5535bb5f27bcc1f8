-- ===== src/Expense/Repository.antt =====
-- `RepositoryAPI` of internal/expense/service.go, with what the service relies on as laws. The
-- implementation, and the proof that it meets them, are in `Expense.Postgres`.
use expense_management.Prelude.{
  ℕ, ◌≤◌, String, List, [], ◌∷◌, ◌++◌, none, some, Bool, true, ◌≡◌, ◌&&◌, ℤ, pos, eq_ℤ, length,
  find, keep, update_where, All, Result, ok, err, Exec,
}
use mathlib.Core.List.{Memᴰ}
use expense_management.Errors.{GoError}
use expense_management.Expense.Entity.{ExpenseRow}
use expense_management.Expense.Query.{ExpenseQueryParams}

pub record RepositoryApi (Db : Type 0) : Type 0 where
  pub create : ExpenseRow → Exec Db GoError ExpenseRow
  pub get_by_id : ℤ → Db → Result GoError ExpenseRow
  pub get_by_user_id : ℤ → ExpenseQueryParams → Db → Result GoError (List ExpenseRow)
  pub get_all_expenses : ExpenseQueryParams → Db → Result GoError (List ExpenseRow)
  pub count_by_user_id : ℤ → ExpenseQueryParams → Db → Result GoError ℕ
  pub count_all_expenses : ExpenseQueryParams → Db → Result GoError ℕ
  -- The clock reading that `Update` makes, and the row.
  pub update : ℕ → ExpenseRow → Exec Db GoError (Unit {0})
  -- The id, the status, the processing time, and the clock reading that `UpdateStatus` makes.
  pub update_status : ℤ → String → ℕ → ℕ → Exec Db GoError (Unit {0})

abbrev pub has_id : ℤ → ExpenseRow → Bool
has_id id r = eq_ℤ r.id id

abbrev pub owned_by : ℤ → ExpenseRow → Bool
owned_by user_id r = eq_ℤ r.user_id user_id

abbrev pub set_status : String → ℕ → ℕ → ExpenseRow → ExpenseRow
set_status status processed_at now r = record r {
  expense_status = status;
  processed_at = some processed_at;
  updated_at = now;
}

-- `rows` are the stored expenses, `matches` what the filters of a query let through.
pub record IsRepository {Db : Type 0} (repo : RepositoryApi Db) (rows : Db → List ExpenseRow)
    (matches : ExpenseQueryParams → ExpenseRow → Bool) : Type 0 where
  pub create_ok :
      (r s : ExpenseRow) (db : Db)
      → (repo.create r db).0 ≡ ok s
      → (id : ℤ) × (s ≡ record r { id = id })
        × (find (has_id id) (rows db) ≡ none)
        × (rows (repo.create r db).1 ≡ rows db ++ s ∷ [])
  pub create_err :
      (r : ExpenseRow) (db : Db) (e : GoError)
      → (repo.create r db).0 ≡ err e
      → rows (repo.create r db).1 ≡ rows db
  pub get_by_id_ok :
      (id : ℤ) (db : Db) (r : ExpenseRow)
      → repo.get_by_id id db ≡ ok r
      → find (has_id id) (rows db) ≡ some r
  pub get_by_user_id_ok :
      (user_id : ℤ) (q : ExpenseQueryParams) (db : Db) (rs : List ExpenseRow) (n : ℕ)
      → repo.get_by_user_id user_id q db ≡ ok rs
      → q.per_page ≡ pos n
      → All (λ r. (r.user_id ≡ user_id) × (matches q r ≡ true) × Memᴰ r (rows db)) rs
        × (length rs ≤ n)
        × (length rs ≤ length (keep (λ r. owned_by user_id r && matches q r) (rows db)))
  pub get_all_expenses_ok :
      (q : ExpenseQueryParams) (db : Db) (rs : List ExpenseRow) (n : ℕ)
      → repo.get_all_expenses q db ≡ ok rs
      → q.per_page ≡ pos n
      → All (λ r. (matches q r ≡ true) × Memᴰ r (rows db)) rs
        × (length rs ≤ n)
        × (length rs ≤ length (keep (matches q) (rows db)))
  pub count_by_user_id_ok :
      (user_id : ℤ) (q : ExpenseQueryParams) (db : Db) (n : ℕ)
      → repo.count_by_user_id user_id q db ≡ ok n
      → n ≡ length (keep (λ r. owned_by user_id r && matches q r) (rows db))
  pub count_all_expenses_ok :
      (q : ExpenseQueryParams) (db : Db) (n : ℕ)
      → repo.count_all_expenses q db ≡ ok n
      → n ≡ length (keep (matches q) (rows db))
  pub update_ok :
      (now : ℕ) (r old : ExpenseRow) (db : Db)
      → find (has_id r.id) (rows db) ≡ some old
      → (repo.update now r db).0 ≡ ok tt
      → rows (repo.update now r db).1
        ≡ update_where (has_id r.id) (λ q. record r { updated_at = now }) (rows db)
  pub update_err :
      (now : ℕ) (r : ExpenseRow) (db : Db) (e : GoError)
      → (repo.update now r db).0 ≡ err e
      → rows (repo.update now r db).1 ≡ rows db
  pub update_status_ok :
      (id : ℤ) (status : String) (processed_at now : ℕ) (db : Db)
      → (repo.update_status id status processed_at now db).0 ≡ ok tt
      → rows (repo.update_status id status processed_at now db).1
        ≡ update_where (has_id id) (set_status status processed_at now) (rows db)
  pub update_status_err :
      (id : ℤ) (status : String) (processed_at now : ℕ) (db : Db) (e : GoError)
      → (repo.update_status id status processed_at now db).0 ≡ err e
      → rows (repo.update_status id status processed_at now db).1 ≡ rows db
