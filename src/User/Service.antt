-- ===== src/User/Service.antt =====
-- internal/user/service.go, and the handler of handler.go.
use expense_management.Prelude.{String, List, Option, none, some, ℤ, Result, ok, err, ◌>=>◌}
use expense_management.Errors.{GoError, wrap}
use expense_management.Transport.{User as ContextUser, Response, write_json, write_error}
use expense_management.User.{User, UserRow, UserJson, from_data_model_with_permissions, to_json}

-- `RepositoryAPI`
pub record RepositoryApi (Db : Type 0) : Type 0 where
  pub get_by_id : ℤ → Db → Result GoError UserRow
  pub get_permissions : ℤ → Db → Result GoError (List String)

abbrev pub wrapped : {A : Type 0} → String → Result GoError A → Result GoError A
wrapped prefix (ok a) = ok a
wrapped prefix (err e) = err (wrap prefix e)

module _ {Db : Type 0} (repo : RepositoryApi Db) where
  unfoldable pub get_by_id : ℤ → Db → Result GoError User
  unfolding from_data_model_with_permissions
  get_by_id user_id db = wrapped "failed to get user by ID" (repo.get_by_id user_id db) >=> λ row.
      wrapped "failed to get user permissions" (repo.get_permissions user_id db) >=> λ permissions.
      ok (from_data_model_with_permissions row permissions)

  unfoldable pub get_permissions : ℤ → Db → Result GoError (List String)
  get_permissions user_id db = repo.get_permissions user_id db

  abbrev answer : Result GoError User → Response UserJson
  answer (err e) = write_error 500 "internal server error"
  answer (ok u) = write_json 200 (to_json u)

  -- The handler: `GET /users/me`.
  unfoldable pub get_current_user : Option ContextUser → Db → Response UserJson
  unfolding write_error write_json to_json get_by_id
  get_current_user none db = write_error 401 "unauthorized"
  get_current_user (some user) db = answer (get_by_id user.id db)
