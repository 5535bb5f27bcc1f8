-- ===== src/Category/Postgres.antt =====
-- internal/category/postgres/category.go, over a table of the database.
use expense_management.Prelude.{
  ℕ, String, List, Option, none, some, true, false, ◌≡◌, refl, ap, sym, ◌∙◌, find_sound, ◌⊎◌, inl,
  inr, ℤ, eq_ℤ, str_eq, find, Bool, Result, ok, err, Exec, find-update_where,
}
use expense_management.Errors.{
  GoError, global, app, msg, wrap, record_not_found, database, auth, auth_validation,
}
use expense_management.Database.{Table, IsTable}
use expense_management.Category.{ExpenseCategory}

abbrev has_name : String → ExpenseCategory → Bool
has_name name c = str_eq c.name name

abbrev has_id : ℤ → ExpenseCategory → Bool
has_id id c = eq_ℤ c.id id

-- `if err == gorm.ErrRecordNotFound { return nil, nil }`
unfoldable pub found_or_nil :
    Result GoError ExpenseCategory → Result GoError (Option ExpenseCategory)
found_or_nil (ok c) = ok (some c)
found_or_nil (err record_not_found) = ok none
found_or_nil (err e) = err e

module _ {Db : Type 0} (table : Table Db ExpenseCategory) where
  unfoldable pub get_all : Db → Result GoError (List ExpenseCategory)
  get_all db = table.find_all (λ c. true) "name ASC" db

  unfoldable pub get_by_name : String → Db → Result GoError (Option ExpenseCategory)
  unfolding found_or_nil
  get_by_name name db = found_or_nil (table.first (has_name name) db)

  unfoldable pub get_by_id : ℤ → Db → Result GoError (Option ExpenseCategory)
  unfolding found_or_nil
  get_by_id id db = found_or_nil (table.first (has_id id) db)

  unfoldable pub create : ExpenseCategory → Exec Db GoError ExpenseCategory
  create c = table.create c

  -- gorm sets `updated_at` in `Save` and in `Update`.
  unfoldable pub update : ℕ → ExpenseCategory → Exec Db GoError (Unit {0})
  update now c = table.save (record c { updated_at = now })

  -- A category is only marked.
  unfoldable pub delete : ℕ → ℤ → Exec Db GoError (Unit {0})
  delete now id = table.updates (has_id id) (λ c. record c { is_active = false; updated_at = now })

NilOutcome : Result GoError ExpenseCategory → Option ExpenseCategory → Type 0
NilOutcome r o =
    ((c : ExpenseCategory) × (r ≡ ok c) × (o ≡ some c)) ⊎ (r ≡ err record_not_found) × (o ≡ none)

found_or_nil-ok :
    (r : Result GoError ExpenseCategory) (o : Option ExpenseCategory)
    → found_or_nil r ≡ ok o
    → NilOutcome r o
unfolding found_or_nil NilOutcome
found_or_nil-ok (ok c) o h = inl (c, refl, cc)
found_or_nil-ok (err record_not_found) o h = inr (refl, cc)
found_or_nil-ok (err (global g)) o h = absurd cc
found_or_nil-ok (err (app e)) o h = absurd cc
found_or_nil-ok (err (msg m)) o h = absurd cc
found_or_nil-ok (err (wrap m e)) o h = absurd cc
found_or_nil-ok (err (database m)) o h = absurd cc
found_or_nil-ok (err (auth g)) o h = absurd cc
found_or_nil-ok (err (auth_validation m)) o h = absurd cc

module _ {Db : Type 0} (table : Table Db ExpenseCategory) (rows : Db → List ExpenseCategory)
    (laws : IsTable table rows (λ c. c.id) (λ id c. record c { id = id })) where
  get_by_id-find :
      (id : ℤ) (db : Db) (o : Option ExpenseCategory)
      → get_by_id table id db ≡ ok o
      → find (has_id id) (rows db) ≡ o
  unfolding get_by_id NilOutcome
  get_by_id-find id db o h = elim (found_or_nil-ok (table.first (has_id id) db) o h) [
    | inl (c, found, same) ↦ laws.first_ok (has_id id) db c found ∙ sym same
    | inr (missing, same) ↦ laws.first_none (has_id id) db missing ∙ sym same
  ]

  -- A category that was deleted is still found by its id, and is not active.
  pub get_by_id-delete :
      (now : ℕ) (id : ℤ) (db : Db) (c : ExpenseCategory) (o : Option ExpenseCategory)
      → get_by_id table id db ≡ ok (some c)
      → (delete table now id db).0 ≡ ok tt
      → get_by_id table id (delete table now id db).1 ≡ ok o
      → o ≡ some (record c { is_active = false; updated_at = now })
  unfolding delete
  get_by_id-delete now id db c o before deleted after =
      let there = get_by_id-find id db (some c) before in
      let written =
        laws.updates_ok (has_id id) (λ r. record r { is_active = false; updated_at = now }) db
          deleted in
      sym (get_by_id-find id (delete table now id db).1 o after)
      ∙ ap (find (has_id id)) written
      ∙ find-update_where (has_id id) (λ r. record r { is_active = false; updated_at = now })
          (rows db) c there (find_sound (has_id id) (rows db) c there)
