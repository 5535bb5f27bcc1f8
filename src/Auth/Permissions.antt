-- ===== src/Auth/Permissions.antt =====
-- internal/auth/permission_checker.go, and the permission methods of `User` in internal/auth/user.go
-- (those of internal/user/user.go are the same code).
pub mod Laws
pub mod Roles
use expense_management.Prelude.{
  String, List, [], ◌∷◌, Bool, true, false, ◌||◌, str_eq, if◌then◌else◌,
}

-- The inner loop, `return true` at the first match.
unfoldable pub has_permission : List String → String → Bool
has_permission [] permission = false
has_permission (p ∷ ps) permission =
    if str_eq p permission then true else has_permission ps permission

-- The inner loop of `HasAnyPermission`, over the required permissions.
matches_any : String → List String → Bool
matches_any user_perm [] = false
matches_any user_perm (r ∷ rs) = if str_eq user_perm r then true else matches_any user_perm rs

unfoldable pub has_any_permission : List String → List String → Bool
unfolding matches_any
has_any_permission [] required = false
has_any_permission (p ∷ ps) required =
    if matches_any p required then true else has_any_permission ps required

unfoldable pub can_approve_expenses : List String → Bool
can_approve_expenses perms = has_any_permission perms ("approve_expenses" ∷ "admin" ∷ [])

unfoldable pub can_reject_expenses : List String → Bool
can_reject_expenses perms = has_any_permission perms ("reject_expenses" ∷ "admin" ∷ [])

unfoldable pub can_retry_payments : List String → Bool
can_retry_payments perms = has_any_permission perms ("retry_payments" ∷ "admin" ∷ [])

unfoldable pub can_view_all_expenses : List String → Bool
can_view_all_expenses perms =
    has_any_permission perms ("admin" ∷ "approve_expenses" ∷ "reject_expenses" ∷ "manager" ∷ [])

unfoldable pub is_manager : List String → Bool
is_manager perms =
    has_any_permission perms ("manager" ∷ "admin" ∷ "approve_expenses" ∷ "reject_expenses" ∷ [])

unfoldable pub is_admin : List String → Bool
is_admin perms = has_any_permission perms ("admin" ∷ [])

-- `User.IsManager` and `User.IsAdmin`.
unfoldable pub user_is_manager : List String → Bool
user_is_manager perms =
    has_any_permission perms ("approve_expenses" ∷ "reject_expenses" ∷ "admin" ∷ [])

unfoldable pub user_is_admin : List String → Bool
user_is_admin perms = has_permission perms "admin"
