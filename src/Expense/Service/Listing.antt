-- ===== src/Expense/Service/Listing.antt =====
-- Lists and counts of expenses, in internal/expense/service.go.
use expense_management.Prelude.{
  ℕ, ◌≤◌, Bool, String, List, [], ◌∷◌, true, ◌≡◌, refl, ◌⊎◌, inl, inr, Bool-cases, ℤ, Result, ok,
  err, arith, length, All, false, ◌>>=◌, pure,
}
use mathlib.Core.List.{Memᴰ}
use expense_management.Errors.{GoError}
use expense_management.Auth.Permissions.{can_view_all_expenses}
use expense_management.Events.Bus.{EventBus}
use expense_management.World.{World, read_db}
use expense_management.Expense.Query.{ExpenseQueryParams, set_defaults}
use expense_management.Expense.Query.Laws.{set_defaults-IsPaged, set_defaults_idem, page_size}
use expense_management.Expense.Entity.{Expense, ExpenseRow, from_data_model, from_data_model_slice}
use expense_management.Expense.Repository.{RepositoryApi, IsRepository}
use expense_management.Expense.Service.{
  PaymentProcessorApi, get_all_expenses, get_expenses_for_user, get_expenses_count_for_user,
}

module _ {Db H View : Type 0} (repo : RepositoryApi Db)
    (processor : PaymentProcessorApi (World Db H) View) (bus : EventBus H)
    (rows : Db → List ExpenseRow) {matches : ExpenseQueryParams → ExpenseRow → Bool}
    (laws : IsRepository repo rows matches) (user_id : ℤ) (perms : List String)
    (params : ExpenseQueryParams) (w : World Db H) where
  -- An expense of the list comes from a stored row that the filters let through, and that the user
  -- may see: his own, or any if he may view all expenses.
  abbrev pub IsListed : Expense → Type 0
  IsListed e =
      (row : ExpenseRow) × (e ≡ from_data_model row)
      × Memᴰ row (rows w.db)
      × (matches (set_defaults params) row ≡ true)
      × ((e.user_id ≡ user_id) ⊎ (can_view_all_expenses perms ≡ true))

  length-from_data_model_slice :
      (rs : List ExpenseRow) → length (from_data_model_slice rs) ≡ length rs
  unfolding from_data_model_slice
  length-from_data_model_slice [] = refl
  length-from_data_model_slice (r ∷ rs) = omega (arith, length-from_data_model_slice rs)

  own_rows-IsListed :
      (rs : List ExpenseRow)
      → All
          (λ r.
            (r.user_id ≡ user_id) × (matches (set_defaults params) r ≡ true) × Memᴰ r (rows w.db))
          rs
      → All IsListed (from_data_model_slice rs)
  unfolding from_data_model_slice from_data_model
  own_rows-IsListed [] h = tt
  own_rows-IsListed (r ∷ rs) ((own, passes, there), h) =
      ((r, refl, there, passes, inl own), own_rows-IsListed rs h)

  viewed_rows-IsListed :
      (rs : List ExpenseRow)
      → can_view_all_expenses perms ≡ true
      → All (λ r. (matches (set_defaults params) r ≡ true) × Memᴰ r (rows w.db)) rs
      → All IsListed (from_data_model_slice rs)
  unfolding from_data_model_slice from_data_model
  viewed_rows-IsListed [] viewer h = tt
  viewed_rows-IsListed (r ∷ rs) viewer ((passes, there), h) =
      ((r, refl, there, passes, inr viewer), viewed_rows-IsListed rs viewer h)

  -- What a read and the conversion of its rows came from.
  converted :
      (read : Result GoError (List ExpenseRow))
      → (es : List Expense)
      → ((read_db (λ db. read) >>= λ rs. pure (from_data_model_slice rs)) w).0 ≡ ok es
      → (rs : List ExpenseRow) × (read ≡ ok rs) × (es ≡ from_data_model_slice rs)
  converted (ok rs) es h = (rs, refl, ground arith)
  converted (err x) es h = cc h

  viewer_rows :
      (es : List Expense)
      → can_view_all_expenses perms ≡ true
      → (get_expenses_for_user repo processor bus user_id perms params w).0 ≡ ok es
      → (rs : List ExpenseRow) × (repo.get_all_expenses (set_defaults params) w.db ≡ ok rs)
        × (es ≡ from_data_model_slice rs)
  unfolding get_expenses_for_user get_all_expenses
  viewer_rows es viewer h =
      converted (repo.get_all_expenses (set_defaults params) w.db) es
        (rw (viewer, set_defaults_idem params) at h)

  owner_rows :
      (es : List Expense)
      → can_view_all_expenses perms ≡ false
      → (get_expenses_for_user repo processor bus user_id perms params w).0 ≡ ok es
      → (rs : List ExpenseRow) × (repo.get_by_user_id user_id (set_defaults params) w.db ≡ ok rs)
        × (es ≡ from_data_model_slice rs)
  unfolding get_expenses_for_user
  owner_rows es owner h =
      converted (repo.get_by_user_id user_id (set_defaults params) w.db) es (rw owner at h)

  -- For every expense repository that keeps its laws, each expense of a list comes from a stored
  -- row that the filters of the request, with its defaults, let through, and belongs to the user
  -- unless he may view all expenses; and a list has at most 100 expenses.
  pub get_expenses_for_user-IsListed :
      (es : List Expense)
      → (get_expenses_for_user repo processor bus user_id perms params w).0 ≡ ok es
      → All IsListed es × (length es ≤ 100)
  get_expenses_for_user-IsListed es h =
      let (n, size, few) = page_size (set_defaults params) (set_defaults-IsPaged params) in
      elim (Bool-cases (can_view_all_expenses perms)) [
        | inl viewer ↦
            let (rs, read, e) = viewer_rows es viewer h in
            let (each, short, fewer) =
              laws.get_all_expenses_ok (set_defaults params) w.db rs n read size in
            rw e
              (viewed_rows-IsListed rs viewer each, omega (arith, length-from_data_model_slice rs))
        | inr owner ↦
            let (rs, read, e) = owner_rows es owner h in
            let (each, short, fewer) =
              laws.get_by_user_id_ok user_id (set_defaults params) w.db rs n read size in
            rw e (own_rows-IsListed rs each, omega (arith, length-from_data_model_slice rs))
      ]

  -- For every expense repository that keeps its laws, where both the list and the count of the
  -- same request, with its defaults, and of the same state succeed, the list is not longer than
  -- the count.
  pub get_expenses_for_user-count :
      (es : List Expense) (total : ℕ)
      → (get_expenses_for_user repo processor bus user_id perms params w).0 ≡ ok es
      → (get_expenses_count_for_user repo processor bus user_id perms (set_defaults params) w).0
        ≡ ok total
      → length es ≤ total
  unfolding get_expenses_count_for_user
  get_expenses_for_user-count es total h k =
      let (n, size, few) = page_size (set_defaults params) (set_defaults-IsPaged params) in
      elim (Bool-cases (can_view_all_expenses perms)) [
        | inl viewer ↦
            let (rs, read, e) = viewer_rows es viewer h in
            let (each, short, fewer) =
              laws.get_all_expenses_ok (set_defaults params) w.db rs n read size in
            let counted =
              laws.count_all_expenses_ok (set_defaults params) w.db total (rw viewer at k) in
            rw (e, counted) (omega (arith, length-from_data_model_slice rs))
        | inr owner ↦
            let (rs, read, e) = owner_rows es owner h in
            let (each, short, fewer) =
              laws.get_by_user_id_ok user_id (set_defaults params) w.db rs n read size in
            let counted =
              laws.count_by_user_id_ok user_id (set_defaults params) w.db total (rw owner at k) in
            rw (e, counted) (omega (arith, length-from_data_model_slice rs))
      ]
