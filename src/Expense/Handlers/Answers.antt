-- ===== src/Expense/Handlers/Answers.antt =====
-- Which requests of internal/expense/handler.go reach the service, and what status they get.
use expense_management.Prelude.{
  String, Option, none, some, ◌≡◌, refl, ◌⊎◌, inl, inr, ℤ, parse_int, Result, ok, err, ◌≢◌,
}
use expense_management.Errors.{
  GoError, global, expense_not_found, unauthorized_access, invalid_expense_status,
}
use expense_management.Transport.{User, Response, write_json, write_error}
use expense_management.World.{Env}
use expense_management.Expense.Handlers.{
  ServiceApi, approve_expense_handler, approve_parsed, decided, decision_error,
}

-- The status code for each error of a decision on an expense.
abbrev pub StatusFor : GoError → Response String → Type 0
StatusFor e r =
    ((e ≡ global expense_not_found) × (r.status ≡ 404))
    ⊎ ((e ≡ global invalid_expense_status) × (r.status ≡ 400))
    ⊎ ((e ≡ global unauthorized_access) × (r.status ≡ 403))
    ⊎ ((e ≢ global expense_not_found)
        × (e ≢ global invalid_expense_status)
        × (e ≢ global unauthorized_access)
        × (r.status ≡ 500))

decision_error-StatusFor :
    (wrong_status other : String) (e : GoError) → StatusFor e (decision_error wrong_status other e)
unfolding decision_error write_error
decision_error-StatusFor a b (global expense_not_found) = inl (refl, refl)
decision_error-StatusFor a b (global invalid_expense_status) = inr (inl (refl, refl))
decision_error-StatusFor a b (global unauthorized_access) = inr (inr (inl (refl, refl)))
decision_error-StatusFor a b (global _) = inr (inr (inr (λ h. cc h, λ h. cc h, λ h. cc h, refl)))
decision_error-StatusFor a b _ = inr (inr (inr (λ h. cc h, λ h. cc h, λ h. cc h, refl)))

module _ {S : Type 0} (service : ServiceApi S) (env : Env) (s : S) where
  -- The answer to a request by the user, if any, for the id, if it is a number.
  abbrev pub ApprovalAnswer : Option User → Option ℤ → Response String × S → Type 0
  ApprovalAnswer none number r = (r.0.status ≡ 401) × (r.1 ≡ s)
  ApprovalAnswer (some u) none r = (r.0.status ≡ 400) × (r.1 ≡ s)
  ApprovalAnswer (some u) (some id) r =
      (r.1 ≡ (service.approve_expense env id u.id u.permissions s).1)
      × (((service.approve_expense env id u.id u.permissions s).0 ≡ ok tt) × (r.0.status ≡ 200)
          ⊎ ((e : GoError) × ((service.approve_expense env id u.id u.permissions s).0 ≡ err e)
              × StatusFor e r.0))

  decided_lem :
      (x : Result GoError (Unit {0}) × S)
      → let r =
          decided service "approved"
            (decision_error "expense cannot be approved in current status"
              "failed to approve expense")
            x in
        (r.1 ≡ x.1)
        × ((x.0 ≡ ok tt) × (r.0.status ≡ 200) ⊎ ((e : GoError) × (x.0 ≡ err e) × StatusFor e r.0))
  unfolding decided write_json
  decided_lem (ok u, t) = (refl, inl (refl, refl))
  decided_lem (err e, t) = (refl, inr (e, refl, decision_error-StatusFor _ _ e))

  parsed_lem :
      (u : User) (number : Option ℤ)
      → ApprovalAnswer (some u) number (approve_parsed service env u number s)
  unfolding approve_parsed write_error
  parsed_lem u none = (refl, refl)
  parsed_lem u (some id) = decided_lem (service.approve_expense env id u.id u.permissions s)

  -- For every service, the handler of an approval answers 401 without a user and 400 for an id
  -- that is no number, and does not call the service; otherwise it keeps the service's state and
  -- answers 200 for a success, 404, 400 or 403 for the errors not found, invalid status and
  -- unauthorized, and 500 for any other error.
  pub approve_expense_handler-ApprovalAnswer :
      (user : Option User) (text : String)
      → ApprovalAnswer user (parse_int text) (approve_expense_handler service env user text s)
  unfolding approve_expense_handler write_error
  approve_expense_handler-ApprovalAnswer none text = (refl, refl)
  approve_expense_handler-ApprovalAnswer (some u) text = parsed_lem u (parse_int text)
