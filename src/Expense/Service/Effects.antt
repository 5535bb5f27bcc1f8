-- ===== src/Expense/Service/Effects.antt =====
-- What the operations of internal/expense/service.go that decide on an expense share.
use expense_management.Prelude.{ℕ, Bool, List, ◌≡◌, ◌∙◌, ℤ, ok, update_where, eq_ℤ_iff, find_sound}
use expense_management.Expense.Query.{ExpenseQueryParams}
use expense_management.Expense.Entity.{ExpenseRow}
use expense_management.Expense.Repository.{RepositoryApi, IsRepository, has_id}

module _ {Db : Type 0} (repo : RepositoryApi Db) (rows : Db → List ExpenseRow)
    {matches : ExpenseQueryParams → ExpenseRow → Bool} (laws : IsRepository repo rows matches) where
  -- The rows after an update of the row that was read under `id`.
  pub stored_rows :
      (now : ℕ) (id : ℤ) (db : Db) (row next : ExpenseRow)
      → next.id ≡ row.id
      → repo.get_by_id id db ≡ ok row
      → (repo.update now next db).0 ≡ ok tt
      → rows (repo.update now next db).1
        ≡ update_where (has_id id) (λ q. record next { updated_at = now }) (rows db)
  stored_rows now id db row next same found done =
      let there = laws.get_by_id_ok id db row found in
      let key : next.id ≡ id =
        same ∙ (eq_ℤ_iff row.id id).0 (find_sound (has_id id) (rows db) row there) in
      rw (← key) (laws.update_ok now next row db (rw (← key) at there) done)
