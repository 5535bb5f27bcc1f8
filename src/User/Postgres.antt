-- ===== src/User/Postgres.antt =====
-- internal/user/postgres/user.go, over `database/sql`: the conditions of the queries, and what
-- is made of the rows.
use expense_management.Prelude.{
  ℕ, String, List, [], ◌∷◌, Option, none, some, Bool, ℤ, eq_ℤ, ◌&&◌, Result, ok, err, ◌>=>◌,
  trim_space,
}
use expense_management.Errors.{GoError, msg, record_not_found}
use expense_management.Auth.Postgres.{ScanError, no_rows, failed, GrantRow, Rows, granted_to}
use expense_management.User.{UserRow}
use expense_management.User.Service.{RepositoryApi}

-- The columns that are scanned; the department is a `sql.NullString`.
pub record ScannedUser : Type 0 where
  pub id : ℤ
  pub email : String
  pub name : String
  pub department : Option String
  pub is_active : Bool
  pub password_hash : String
  pub created_at : ℕ
  pub updated_at : ℕ

pub record Queries (Db : Type 0) : Type 0 where
  -- The row of `SELECT … FROM users WHERE …`
  pub user_where : (ScannedUser → Bool) → Db → Result ScanError ScannedUser
  -- The rows of `SELECT p.name FROM permissions p JOIN … WHERE …`
  pub names_where : (GrantRow → Bool) → Db → Result GoError Rows

-- WHERE id = ? AND is_active = true
unfoldable pub is_active_with_id : ℤ → ScannedUser → Bool
is_active_with_id user_id u = eq_ℤ u.id user_id && u.is_active

abbrev or_empty : Option String → String
or_empty none = ""
or_empty (some s) = s

abbrev or_not_found : Result ScanError ScannedUser → Result GoError ScannedUser
or_not_found (ok u) = ok u
or_not_found (err no_rows) = err (msg "user not found")
or_not_found (err (failed record_not_found)) = err (msg "user not found")
or_not_found (err (failed e)) = err e

-- The loop over the rows. `rows.Err()` is not asked.
unfoldable pub scan_trimmed : List (Result GoError String) → Result GoError (List String)
unfolding trim_space
scan_trimmed [] = ok []
scan_trimmed (err e ∷ rows) = err e
scan_trimmed (ok name ∷ rows) = scan_trimmed rows >=> λ names. ok (trim_space name ∷ names)

module _ {Db : Type 0} (sql : Queries Db) where
  unfoldable pub get_by_id : ℤ → Db → Result GoError UserRow
  unfolding is_active_with_id
  get_by_id user_id db = or_not_found (sql.user_where (is_active_with_id user_id) db) >=> λ u.
      ok (record {
        id = u.id;
        email = u.email;
        name = u.name;
        password_hash = u.password_hash;
        department = or_empty u.department;
        is_active = u.is_active;
        created_at = u.created_at;
        updated_at = u.updated_at;
      })

  unfoldable pub get_permissions : ℤ → Db → Result GoError (List String)
  unfolding scan_trimmed
  get_permissions user_id db =
      sql.names_where (granted_to user_id) db >=> λ rows. scan_trimmed rows.scans

  -- `NewRepository`
  unfoldable pub repository : RepositoryApi Db
  unfolding get_by_id get_permissions
  repository = record { get_by_id = get_by_id; get_permissions = get_permissions }
