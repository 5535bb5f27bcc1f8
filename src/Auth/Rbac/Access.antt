-- ===== src/Auth/Rbac/Access.antt =====
-- What the middleware of internal/auth/rbac_authorization.go lets through.
use expense_management.Prelude.{
  String, List, [], ◌∷◌, Option, none, some, false, ◌≡◌, refl, ◌⊎◌, inl, inr, Bool-cases, ok,
}
use expense_management.Transport.{User, Response, http_error}
use expense_management.Auth.Permissions.{
  has_any_permission, can_approve_expenses, can_reject_expenses, can_retry_payments, is_manager,
  is_admin,
}
use expense_management.Auth.Permissions.Laws.{HasCommon, has_any_permission_iff}
use expense_management.Auth.Rbac.{
  HandlerFunc, default_checker, guard_with, decide_access, rbac_check, require_approve_expense,
  require_reject_expense, require_retry_payment, require_manager, require_admin,
}

module _ {S A : Type 0} where
  -- The guarded handler ran, for a user who holds one of the permissions, or it did not run: the
  -- state is the old one, there is no user (401) or the user holds none of them (403).
  abbrev pub LetsThrough : List String → HandlerFunc S A → Option User → S → Response A × S → Type 0
  LetsThrough required next user s r =
      ((u : User) × (user ≡ some u) × HasCommon u.permissions required × (r ≡ next user s))
      ⊎ ((user ≡ none) × (r ≡ (http_error "Unauthorized" 401, s)))
      ⊎ ((u : User) × (user ≡ some u)
          × (has_any_permission u.permissions required ≡ false)
          × (r ≡ (http_error "Forbidden: insufficient permissions" 403, s)))

  guard_with_lem :
      (required : List String) (next : HandlerFunc S A) (user : Option User) (s : S)
      → LetsThrough required next user s
          (guard_with (λ perms. ok (has_any_permission perms required)) next user s)
  unfolding guard_with decide_access
  guard_with_lem required next none s = inr (inl (refl, refl))
  guard_with_lem required next (some u) s =
      elim (Bool-cases (has_any_permission u.permissions required)) [
        | inl held ↦ inl (u, refl, (has_any_permission_iff u.permissions required).0 held, rw held)
        | inr not_held ↦ inr (inr (u, refl, not_held, rw not_held))
      ]

  -- Each middleware, with the default checker, runs the handler it guards exactly for a user who
  -- holds one of its permissions, whatever the handler does; without a user it answers 401, for
  -- any other user 403, and in both cases the state is as it was.
  pub middleware-LetsThrough :
      (next : HandlerFunc S A) (user : Option User) (s : S) (permission : String)
      → LetsThrough
          ("approve_expenses" ∷ "admin" ∷ [])
          next
          user
          s
          (require_approve_expense default_checker next user s)
        × LetsThrough
            ("reject_expenses" ∷ "admin" ∷ [])
            next
            user
            s
            (require_reject_expense default_checker next user s)
        × LetsThrough
            ("retry_payments" ∷ "admin" ∷ [])
            next
            user
            s
            (require_retry_payment default_checker next user s)
        × LetsThrough
            ("manager" ∷ "admin" ∷ "approve_expenses" ∷ "reject_expenses" ∷ [])
            next
            user
            s
            (require_manager default_checker next user s)
        × LetsThrough ("admin" ∷ []) next user s (require_admin default_checker next user s)
        × LetsThrough
            (permission ∷ [])
            next
            user
            s
            (rbac_check default_checker next permission user s)
  unfolding require_approve_expense require_reject_expense require_retry_payment require_manager
      require_admin rbac_check can_approve_expenses can_reject_expenses can_retry_payments
      is_manager is_admin
  middleware-LetsThrough next user s permission = (
    guard_with_lem _ next user s,
    guard_with_lem _ next user s,
    guard_with_lem _ next user s,
    guard_with_lem _ next user s,
    guard_with_lem _ next user s,
    guard_with_lem _ next user s,
  )
