-- ===== src/Auth/Permissions/Roles.antt =====
-- How the roles of internal/auth/permission_checker.go and internal/auth/user.go relate.
use expense_management.Prelude.{String, List, true, not, ◌||◌, ◌&&◌, ◌≡◌, arith}
use expense_management.Auth.Permissions.{
  has_permission, can_approve_expenses, can_reject_expenses, can_retry_payments,
  can_view_all_expenses, is_manager, is_admin, user_is_manager, user_is_admin,
}
use expense_management.Auth.Permissions.Laws.{has_any_permission-cons, has_any_permission-nil}

ruleset singly = (has_any_permission-cons, has_any_permission-nil)

-- Whoever may approve or reject expenses may view all expenses, the managers are exactly those
-- who may view all expenses, and an administrator may approve, reject, retry payments and view
-- all.
roles_hierarchy :
    (perms : List String)
    → ((not (can_approve_expenses perms) || can_view_all_expenses perms) ≡ true)
      × ((not (can_reject_expenses perms) || can_view_all_expenses perms) ≡ true)
      × (is_manager perms ≡ can_view_all_expenses perms)
      × ((not (is_admin perms)
            || can_approve_expenses perms
              && can_reject_expenses perms
              && can_retry_payments perms
              && can_view_all_expenses perms)
          ≡ true)
unfolding can_approve_expenses can_reject_expenses can_retry_payments can_view_all_expenses
    is_manager is_admin
roles_hierarchy perms = simp singly (ground arith)

-- IsManager of the checker and IsManager of a user differ by the permission "manager" alone, and
-- their IsAdmin agree.
is_manager-user_is_manager :
    (perms : List String)
    → (is_manager perms ≡ (has_permission perms "manager" || user_is_manager perms))
      × (is_admin perms ≡ user_is_admin perms)
unfolding is_manager user_is_manager is_admin user_is_admin
is_manager-user_is_manager perms = simp singly (ground arith)
