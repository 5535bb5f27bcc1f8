-- ===== src/Auth/Rbac.antt =====
-- internal/auth/rbac_authorization.go: the middleware that asks for a permission. The methods with a
-- context of internal/auth/permission_checker.go are the authorizer that `NewService` passes in.
pub mod Access
use expense_management.Prelude.{
  String, List, [], ◌∷◌, Option, none, some, Bool, true, false, Result, ok, err,
}
use expense_management.Errors.{GoError}
use expense_management.Transport.{User, Response, http_error}
use expense_management.Auth.Permissions.{
  has_any_permission, can_approve_expenses, can_reject_expenses, can_retry_payments, is_manager,
  is_admin,
}

-- `PermissionAuthorizer`. The contexts carry nothing that the answers depend on.
pub record PermissionAuthorizer : Type 0 where
  pub has_permission : List String → String → Result GoError Bool
  pub can_approve_expenses_ctx : List String → Result GoError Bool
  pub can_reject_expenses_ctx : List String → Result GoError Bool
  pub can_retry_payments_ctx : List String → Result GoError Bool
  pub is_manager_ctx : List String → Result GoError Bool
  pub is_admin_ctx : List String → Result GoError Bool

-- `DefaultPermissionChecker`, whose answers never come with an error.
abbrev pub default_checker : PermissionAuthorizer
default_checker = record {
  has_permission = λ perms p. ok (has_any_permission perms (p ∷ []));
  can_approve_expenses_ctx = λ perms. ok (can_approve_expenses perms);
  can_reject_expenses_ctx = λ perms. ok (can_reject_expenses perms);
  can_retry_payments_ctx = λ perms. ok (can_retry_payments perms);
  is_manager_ctx = λ perms. ok (is_manager perms);
  is_admin_ctx = λ perms. ok (is_admin perms);
}

-- A handler, for the user of the request's context: it changes a state and answers.
abbrev pub HandlerFunc : Type 0 → Type 0 → Type 0
HandlerFunc S A = Option User → S → Response A × S

module _ {S A : Type 0} where
  decide_access : Result GoError Bool → HandlerFunc S A → HandlerFunc S A
  decide_access (err e) next user s = (http_error "Internal server error" 500, s)
  decide_access (ok false) next user s = (http_error "Forbidden: insufficient permissions" 403, s)
  decide_access (ok true) next user s = next user s

  -- The body that all of the middleware shares, with the question that it asks.
  guard_with : (List String → Result GoError Bool) → HandlerFunc S A → HandlerFunc S A
  unfolding decide_access http_error
  guard_with ask next none s = (http_error "Unauthorized" 401, s)
  guard_with ask next (some user) s = decide_access (ask user.permissions) next (some user) s

  module _ (authorizer : PermissionAuthorizer) where
    unfoldable pub rbac_check : HandlerFunc S A → String → HandlerFunc S A
    unfolding guard_with
    rbac_check next permission =
        guard_with (λ perms. authorizer.has_permission perms permission) next

    unfoldable pub require_approve_expense : HandlerFunc S A → HandlerFunc S A
    unfolding guard_with
    require_approve_expense next = guard_with authorizer.can_approve_expenses_ctx next

    unfoldable pub require_reject_expense : HandlerFunc S A → HandlerFunc S A
    unfolding guard_with
    require_reject_expense next = guard_with authorizer.can_reject_expenses_ctx next

    unfoldable pub require_retry_payment : HandlerFunc S A → HandlerFunc S A
    unfolding guard_with
    require_retry_payment next = guard_with authorizer.can_retry_payments_ctx next

    unfoldable pub require_manager : HandlerFunc S A → HandlerFunc S A
    unfolding guard_with
    require_manager next = guard_with authorizer.is_manager_ctx next

    unfoldable pub require_admin : HandlerFunc S A → HandlerFunc S A
    unfolding guard_with
    require_admin next = guard_with authorizer.is_admin_ctx next
