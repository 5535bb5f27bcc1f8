-- ===== src/Auth/Handlers/Middleware.antt =====
-- internal/auth/handler.go: which requests `AuthMiddleware` lets through, and as whom.
use expense_management.Prelude.{
  ℕ, String, some, true, false, Bool-cases, ◌≡◌, ◌≢◌, refl, ◌⊎◌, inl, inr, str_eq, eq_iff, Result,
  Result-cases, ok, err, ◌∙◌,
}
use expense_management.Errors.{GoError}
use expense_management.Transport.{
  User, Served, served, panicked, write_error, extract_token_from_header,
}
use expense_management.Auth.Rbac.{HandlerFunc}
use expense_management.Auth.Tokens.{Claims, panic, error}
use expense_management.Auth.Service.{ServiceApi}
use expense_management.Auth.Handlers.{auth_middleware, with_claims, with_user, uid_of}

module _ {Db A : Type 0} (service : ServiceApi Db) (clock : ℕ → ℕ) (header : String)
    (next : HandlerFunc Db A) (db : Db) where
  -- The handler ran for the user of the token, or nothing ran.
  abbrev pub Passed : Claims → User → Served A × Db → Type 0
  Passed c u r =
      (service.validate_access_token clock (extract_token_from_header header) ≡ ok c)
      × (service.get_user_with_permissions (uid_of service c) db ≡ ok u)
      × (r ≡ (served (next (some u) db).0, (next (some u) db).1))

  abbrev Stopped : String → Served A × Db → Type 0
  Stopped message r = r ≡ (served (write_error 401 message), db)

  abbrev pub AuthOutcome : Served A × Db → Type 0
  AuthOutcome r =
      (extract_token_from_header header ≡ "") × Stopped "missing authorization token" r
      ⊎ ((e : GoError) × (service.validate_access_token clock (extract_token_from_header header)
            ≡ err (error e))
          × Stopped "invalid token" r)
      ⊎ (service.validate_access_token clock (extract_token_from_header header) ≡ err panic)
        × (r ≡ (panicked, db))
      ⊎ ((c : Claims) × (e : GoError) × (service.validate_access_token clock
              (extract_token_from_header header)
            ≡ ok c)
          × (service.get_user_with_permissions (uid_of service c) db ≡ err e)
          × Stopped "user not found" r)
      ⊎ ((c : Claims) × (u : User) × Passed c u r)

  abbrev pub result : Served A × Db
  result = auth_middleware service clock header next db

  with_token :
      str_eq (extract_token_from_header header) "" ≡ false
      → result
        ≡ with_claims service next
            (service.validate_access_token clock (extract_token_from_header header))
            db
  unfolding auth_middleware
  with_token present = rw present refl

  token_passes :
      (c : Claims) (r : Result GoError User)
      → str_eq (extract_token_from_header header) "" ≡ false
      → service.validate_access_token clock (extract_token_from_header header) ≡ ok c
      → service.get_user_with_permissions (uid_of service c) db ≡ r
      → result ≡ with_user service next r db
  token_passes c r present v g = with_token present ∙ rw (v, g) refl

  pub auth_middleware-passes :
      (c : Claims) (u : User)
      → extract_token_from_header header ≢ ""
      → service.validate_access_token clock (extract_token_from_header header) ≡ ok c
      → service.get_user_with_permissions (uid_of service c) db ≡ ok u
      → result ≡ (served (next (some u) db).0, (next (some u) db).1)
  auth_middleware-passes c u present v g =
      elim (Bool-cases (str_eq (extract_token_from_header header) "")) [
        | inl absent ↦ absurd (present ((eq_iff (extract_token_from_header header) "").0 absent))
        | inr there ↦ token_passes c (ok u) there v g
      ]

  pub auth_middleware-stops :
      extract_token_from_header header ≢ ""
      → service.validate_access_token clock (extract_token_from_header header) ≡ err panic
      → result ≡ (panicked, db)
  auth_middleware-stops present v =
      elim (Bool-cases (str_eq (extract_token_from_header header) "")) [
        | inl absent ↦ absurd (present ((eq_iff (extract_token_from_header header) "").0 absent))
        | inr there ↦ with_token there ∙ rw v refl
      ]

  checked_outcome : str_eq (extract_token_from_header header) "" ≡ false → AuthOutcome result
  checked_outcome present =
      elim (Result-cases (service.validate_access_token clock (extract_token_from_header header))) [
        | inr (panic, v) ↦ inr (inr (inl (v, with_token present ∙ rw v refl)))
        | inr (error e, v) ↦ inr (inl (e, v, with_token present ∙ rw v refl))
        | inl (c, v) ↦
            elim (Result-cases (service.get_user_with_permissions (uid_of service c) db)) [
              | inr (e, g) ↦ inr (inr (inr (inl (c, e, v, g, token_passes c (err e) present v g))))
              | inl (u, g) ↦ inr (inr (inr (inr (c, u, (v, g, token_passes c (ok u) present v g)))))
            ]
      ]

  missing_outcome :
      str_eq (extract_token_from_header header) "" ≡ true
      → Stopped "missing authorization token" result
  unfolding auth_middleware
  missing_outcome absent = rw absent refl

  -- Every way in which a request leaves the middleware.
  pub auth_middleware_outcome : AuthOutcome (auth_middleware service clock header next db)
  auth_middleware_outcome = elim (Bool-cases (str_eq (extract_token_from_header header) "")) [
    | inl absent ↦
        inl ((eq_iff (extract_token_from_header header) "").0 absent, missing_outcome absent)
    | inr present ↦ checked_outcome present
  ]
