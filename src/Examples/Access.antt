-- ===== src/Examples/Access.antt =====
-- The protected routes and the users' repository on concrete data.
use expense_management.Prelude.{
  ℕ, String, ◌<>◌, List, [], ◌∷◌, true, ◌≡◌, refl, pos, if◌then◌else◌, Result, ok, err, ap, map,
  keep, none, Bool, false, sym, ◌∙◌,
}
use expense_management.Errors.{GoError}
use expense_management.Transport.Middleware.{recovery_middleware}
use expense_management.Auth.Rbac.{
  default_checker, require_approve_expense, require_reject_expense, require_retry_payment,
}
use expense_management.Auth.Tokens.{jwt_token_generator}
use expense_management.Auth.Service.{auth_service}
use expense_management.Auth.Handlers.{auth_middleware}
use mathlib.Core.List.{Memᴰ, append-nil}
use expense_management.Rest.Guarded.{IsAuthorized, protected_routes-IsAuthorized}
use expense_management.Auth.Postgres.{
  Queries, UserRow, GrantRow, ScanError, no_rows, active_with_id, get_user_with_permissions,
  scan_names,
}
use expense_management.Auth.Postgres.Active.{IsQueries, IsGranted, get_user_with_permissions-active}
use expense_management.Examples.Tokens.{sample_jwt}
use expense_management.Examples.Accounts.{
  generator, used, access_token, sample_bcrypt, sample_repo, count_request, ana,
}

-- `ana` may approve, and may not reject or retry.
protected_routes-IsAuthorized_example :
    let service =
      auth_service sample_bcrypt (jwt_token_generator sample_jwt generator) (pos 12) sample_repo in
    let header = "Bearer " <> access_token in
    IsAuthorized service used header count_request 0 ("approve_expenses" ∷ "admin" ∷ []) (
      recovery_middleware
        (auth_middleware service used header
          (require_approve_expense default_checker count_request))
        0)
    × IsAuthorized service used header count_request 0 ("reject_expenses" ∷ "admin" ∷ []) (
        recovery_middleware
          (auth_middleware service used header
            (require_reject_expense default_checker count_request))
          0)
    × IsAuthorized service used header count_request 0 ("retry_payments" ∷ "admin" ∷ []) (
        recovery_middleware
          (auth_middleware service used header
            (require_retry_payment default_checker count_request))
          0)
protected_routes-IsAuthorized_example =
    protected_routes-IsAuthorized
      (auth_service sample_bcrypt (jwt_token_generator sample_jwt generator) (pos 12) sample_repo)
      used ("Bearer " <> access_token) count_request 0

-- One active user, with one permission.
abbrev ana_row : UserRow
ana_row = record {
  id = pos 7;
  id_text = "7";
  email = "ana@x.id";
  password_hash = "#pass";
  is_active = true;
}

-- What `ana` was granted, and what another user was.
abbrev sample_grants : List GrantRow
sample_grants =
    record { user_id = pos 7; name = "approve_expenses" }
    ∷ record { user_id = pos 8; name = "admin" }
    ∷ []

abbrev name_of : GrantRow → String
name_of g = g.name

abbrev sample_queries : Queries ℕ
sample_queries = record {
  user_where = λ p db. if p ana_row then ok ana_row else err no_rows;
  names_where = λ p db.
      ok (record { scans = map ok (map name_of (keep p sample_grants)); iteration_error = none });
}

abbrev names_of : List (Result GoError String) → List String
names_of [] = []
names_of (ok name ∷ rows) = name ∷ names_of rows
names_of (err e ∷ rows) = names_of rows

names_of-map : (names : List String) → names_of (map ok names) ≡ names
names_of-map [] = refl
names_of-map (name ∷ names) = ap (λ ns. name ∷ ns) (names_of-map names)

sample_user :
    (b : Bool) (r : UserRow)
    → ◌≡◌ {A = Result ScanError UserRow} (if b then ok ana_row else err no_rows) (ok r)
    → (b ≡ true) × (ana_row ≡ r)
sample_user true r h = (refl, cc)
sample_user false r h = absurd cc

sample_queries-IsQueries : IsQueries sample_queries (λ db. ana_row ∷ []) (λ db. sample_grants)
sample_queries-IsQueries = record {
  user_where_ok = λ p db r h.
      let (passes, same) = sample_user (p ana_row) r h in
      (ap p (sym same) ∙ passes, Memᴰ.head (sym same));
  names_where_ok = λ p db rows names h e.
      let shown = map name_of (keep p sample_grants) in
      let answered : map ok shown ≡ rows.scans = cc in
      let all : shown ≡ names =
        sym (names_of-map shown) ∙ ap names_of (answered ∙ e) ∙ names_of-map names in
      ([], append-nil names ∙ sym all, λ ended. refl);
}

get_user_with_permissions-active_example :
    (r : UserRow) × Memᴰ r (ana_row ∷ [])
    × (r.is_active ≡ true)
    × (r.id ≡ pos 7)
    × (pos 7 ≡ pos 7)
    × ("ana@x.id" ≡ r.email)
    × IsGranted sample_queries
        (λ db. ana_row ∷ [])
        (λ db. sample_grants)
        sample_queries-IsQueries
        (pos 7)
        0
        ana.permissions
unfolding get_user_with_permissions scan_names active_with_id
get_user_with_permissions-active_example =
    get_user_with_permissions-active sample_queries (λ db. ana_row ∷ []) (λ db. sample_grants)
      sample_queries-IsQueries (pos 7) 0 ana refl
