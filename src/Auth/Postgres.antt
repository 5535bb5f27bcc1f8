-- ===== src/Auth/Postgres.antt =====
-- internal/auth/postgres/auth.go: the users' repository over `database/sql`. A query is a condition
-- on rows; how the database answers one is a parameter: `Queries`.
pub mod Active
use expense_management.Prelude.{
  String, List, [], ◌∷◌, Option, Bool, ◌&&◌, ◌≡◌, ℤ, eq_ℤ, str_eq, Result, ok, err, ◌>=>◌,
}
use expense_management.Errors.{GoError, msg}
use expense_management.Transport.{User}
use expense_management.Auth.Service.{RepositoryApi}

-- A row of the table `users`. The id is scanned as a text too.
pub record UserRow : Type 0 where
  pub id : ℤ
  pub id_text : String
  pub email : String
  pub password_hash : String
  pub is_active : Bool

-- A row of `permissions p JOIN user_permissions up ON p.id = up.permission_id`.
pub record GrantRow : Type 0 where
  pub user_id : ℤ
  pub name : String

-- An error of `Scan`: `sql.ErrNoRows`, or another.
pub data ScanError : Type 0 where
  no_rows : ScanError
  failed : GoError → ScanError

-- A `*sql.Rows`: what `Scan` makes of each row that `Next` comes to, and what `Err` answers after
-- that, which is an error if `Next` stopped before the last row.
pub record Rows : Type 0 where
  pub scans : List (Result GoError String)
  pub iteration_error : Option GoError

pub record Queries (Db : Type 0) : Type 0 where
  -- The row of `SELECT … FROM users WHERE …`
  pub user_where : (UserRow → Bool) → Db → Result ScanError UserRow
  -- The rows of `SELECT p.name FROM permissions p JOIN … WHERE …`
  pub names_where : (GrantRow → Bool) → Db → Result GoError Rows

abbrev pub user_not_found : {A : Type 0} → Result ScanError A → Result GoError A
user_not_found (ok a) = ok a
user_not_found (err no_rows) = err (msg "user not found")
user_not_found (err (failed e)) = err e

-- WHERE email = ? AND is_active = true
unfoldable pub active_with_email : String → UserRow → Bool
active_with_email email r = str_eq r.email email && r.is_active

-- WHERE id = ? AND is_active = true
unfoldable pub active_with_id : ℤ → UserRow → Bool
active_with_id user_id r = eq_ℤ r.id user_id && r.is_active

-- WHERE up.user_id = ?
abbrev pub granted_to : ℤ → GrantRow → Bool
granted_to user_id g = eq_ℤ g.user_id user_id

-- The loop over the rows. `rows.Err()` is not asked.
unfoldable pub scan_names : List (Result GoError String) → Result GoError (List String)
scan_names [] = ok []
scan_names (err e ∷ rows) = err e
scan_names (ok name ∷ rows) = scan_names rows >=> λ names. ok (name ∷ names)

module _ {Db : Type 0} (sql : Queries Db) where
  unfoldable pub get_password_for_username : String → Db → Result GoError (String × String)
  unfolding active_with_email
  get_password_for_username email db =
      user_not_found (sql.user_where (active_with_email email) db) >=> λ row.
      ok (row.password_hash, row.id_text)

  unfoldable pub get_user_with_permissions : ℤ → Db → Result GoError User
  unfolding active_with_id scan_names
  get_user_with_permissions user_id db =
      user_not_found (sql.user_where (active_with_id user_id) db) >=> λ row.
      sql.names_where (granted_to user_id) db >=> λ rows. scan_names rows.scans >=> λ names.
      ok (record { id = row.id; email = row.email; permissions = names })

  -- `NewRepository`
  unfoldable pub repository : RepositoryApi Db
  unfolding get_password_for_username get_user_with_permissions
  repository = record {
    get_password_for_username = get_password_for_username;
    get_user_with_permissions = get_user_with_permissions;
  }
