-- ===== src/User/Laws.antt =====
-- internal/user: a user to its row and back, and what the handler answers.
use expense_management.Prelude.{
  String, List, Option, none, some, ◌≡◌, refl, ◌⊎◌, inl, inr, Result-cases, ok, err,
}
use expense_management.Errors.{GoError}
use expense_management.Transport.{User as ContextUser, Response, write_json, write_error}
use expense_management.User.{
  User, UserRow, UserJson, to_data_model, from_data_model_with_permissions, to_json,
}
use expense_management.User.Service.{RepositoryApi, get_by_id, get_current_user}

-- The conversions undo each other, when the permissions are handed on.
pub from_data_model_with_permissions-to_data_model :
    (u : User) (row : UserRow) (permissions : List String)
    → (from_data_model_with_permissions (to_data_model u) u.permissions ≡ u)
      × (to_data_model (from_data_model_with_permissions row permissions) ≡ row)
unfolding to_data_model from_data_model_with_permissions
from_data_model_with_permissions-to_data_model u row permissions = (refl, refl)

module _ {Db : Type 0} (repo : RepositoryApi Db) where
  abbrev CurrentUser : Option ContextUser → Db → Response UserJson → Type 0
  CurrentUser context db r =
      (context ≡ none) × (r ≡ write_error 401 "unauthorized")
      ⊎ ((user : ContextUser) × (e : GoError) × (context ≡ some user)
          × ((repo.get_by_id user.id db ≡ err e) ⊎ (repo.get_permissions user.id db ≡ err e))
          × (r ≡ write_error 500 "internal server error"))
      ⊎ ((user : ContextUser) × (row : UserRow) × (permissions : List String) × (context
            ≡ some user)
          × (repo.get_by_id user.id db ≡ ok row)
          × (repo.get_permissions user.id db ≡ ok permissions)
          × (r ≡ write_json 200 (to_json (from_data_model_with_permissions row permissions))))

  -- The answer of the handler, on every branch.
  pub get_current_user_outcome :
      (context : Option ContextUser) (db : Db)
      → CurrentUser context db (get_current_user repo context db)
  unfolding get_current_user get_by_id
  get_current_user_outcome none db = inl (refl, refl)
  get_current_user_outcome (some user) db = elim (Result-cases (repo.get_by_id user.id db)) [
    | inr (e, b) ↦ inr (inl (user, e, refl, inl b, rw b refl))
    | inl (row, b) ↦ elim (Result-cases (repo.get_permissions user.id db)) [
      | inr (e, p) ↦ inr (inl (user, e, refl, inr p, rw (b, p) refl))
      | inl (permissions, p) ↦ inr (inr (user, row, permissions, refl, b, p, rw (b, p) refl))
    ]
  ]
