-- ===== src/User.antt =====
-- internal/user/user.go, and the rows of internal/core/datamodel/user/user.go. The methods on the
-- permissions are those of `auth.User`.
pub mod Service
pub mod Postgres
pub mod Laws
use expense_management.Prelude.{ℕ, String, List, [], Bool, ℤ}

pub record User : Type 0 where
  pub id : ℤ
  pub email : String
  pub name : String
  pub password_hash : String
  pub department : String
  pub is_active : Bool
  pub permissions : List String
  pub created_at : ℕ
  pub updated_at : ℕ

-- `userDatamodel.User`
pub record UserRow : Type 0 where
  pub id : ℤ
  pub email : String
  pub name : String
  pub password_hash : String
  pub department : String
  pub is_active : Bool
  pub created_at : ℕ
  pub updated_at : ℕ

unfoldable pub is_active_user : User → Bool
is_active_user u = u.is_active

unfoldable pub to_data_model : User → UserRow
to_data_model u = record {
  id = u.id;
  email = u.email;
  name = u.name;
  password_hash = u.password_hash;
  department = u.department;
  is_active = u.is_active;
  created_at = u.created_at;
  updated_at = u.updated_at;
}

unfoldable pub from_data_model : UserRow → User
from_data_model u = record {
  id = u.id;
  email = u.email;
  name = u.name;
  password_hash = u.password_hash;
  department = u.department;
  is_active = u.is_active;
  permissions = [];
  created_at = u.created_at;
  updated_at = u.updated_at;
}

unfoldable pub from_data_model_with_permissions : UserRow → List String → User
unfolding from_data_model
from_data_model_with_permissions u permissions = record (from_data_model u) {
  permissions = permissions;
}

-- A `User` as JSON: `json:"-"` keeps the hash of the password out.
pub record UserJson : Type 0 where
  pub id : ℤ
  pub email : String
  pub name : String
  pub department : String
  pub is_active : Bool
  pub permissions : List String
  pub created_at : ℕ
  pub updated_at : ℕ

unfoldable pub to_json : User → UserJson
to_json u = record {
  id = u.id;
  email = u.email;
  name = u.name;
  department = u.department;
  is_active = u.is_active;
  permissions = u.permissions;
  created_at = u.created_at;
  updated_at = u.updated_at;
}
