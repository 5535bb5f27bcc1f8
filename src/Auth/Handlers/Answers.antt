-- ===== src/Auth/Handlers/Answers.antt =====
-- internal/auth/handler.go: what `Login`, `RefreshToken` and `Logout` answer.
use expense_management.Prelude.{
  ℕ, String, Bool-cases, Result-cases, ◌≡◌, ◌≢◌, refl, ap, subst, ◌⊎◌, inl, inr, ℤ, str_eq, eq_iff,
  Result, ok, err,
}
use expense_management.Errors.{
  GoError, auth, auth_invalid_token, auth_token_expired, auth_user_inactive,
  auth_invalid_credentials,
}
use expense_management.Transport.{
  Response, Served, served, panicked, write_json, write_error, extract_token_from_header,
}
use expense_management.Auth.Tokens.{AuthTokens, Failure, panic, error, TokenGeneratorApi}
use expense_management.Auth.Service.{
  LoginDto, RefreshTokenDto, Bcrypt, RepositoryApi, ServiceApi, auth_service, validate_refresh,
}
use expense_management.Auth.Service.Login.{IsRefused, IsGranted, run, authenticate_outcome}
use expense_management.Auth.Handlers.{
  login, refresh_token, logout, logged_out, login_error, refresh_error, tokens_or,
}

-- The status of a refresh that failed.
abbrev pub RefreshStatus : GoError → Response AuthTokens → Type 0
RefreshStatus e r =
    ((e ≡ auth auth_invalid_token) ⊎ (e ≡ auth auth_token_expired) ⊎ (e ≡ auth auth_user_inactive))
      × (r.status ≡ 401)
    ⊎ (e ≢ auth auth_invalid_token)
      × (e ≢ auth auth_token_expired)
      × (e ≢ auth auth_user_inactive)
      × (r.status ≡ 500)

refresh_error-RefreshStatus : (e : GoError) → RefreshStatus e (refresh_error e)
unfolding refresh_error write_error
refresh_error-RefreshStatus (auth auth_invalid_token) = inl (inl refl, refl)
refresh_error-RefreshStatus (auth auth_token_expired) = inl (inr (inl refl), refl)
refresh_error-RefreshStatus (auth auth_user_inactive) = inl (inr (inr refl), refl)
refresh_error-RefreshStatus (auth auth_invalid_credentials) =
    inr (λ h. cc h, λ h. cc h, λ h. cc h, refl)
refresh_error-RefreshStatus _ = inr (λ h. cc h, λ h. cc h, λ h. cc h, refl)

module _ {Db : Type 0} (bcrypt : Bcrypt) (generator : TokenGeneratorApi) (cost : ℤ)
    (repo : RepositoryApi Db) (times : ℕ → ℕ → ℕ) (db : Db) where
  -- The answer to a login with a body that was decoded.
  abbrev pub LoginAnswer : LoginDto → Served AuthTokens → Type 0
  LoginAnswer dto r =
      (dto.email ≡ "") × (r ≡ served (write_error 400 "email is required"))
      ⊎ (dto.email ≢ "")
        × (dto.password ≡ "")
        × (r ≡ served (write_error 400 "password is required"))
      ⊎ (dto.email ≢ "")
        × (dto.password ≢ "")
        × (IsRefused bcrypt generator cost repo dto db
              × (r ≡ served (write_error 401 "invalid credentials"))
            ⊎ ((tokens : AuthTokens) × IsGranted bcrypt generator cost repo times dto db (ok tokens)
                × (r ≡ served (write_json 200 tokens)))
            ⊎ ((f : Failure) × IsGranted bcrypt generator cost repo times dto db (err f)
                × (r ≡ tokens_or login_error (err f))))

  answered :
      (dto : LoginDto) (r : Result Failure AuthTokens)
      → run bcrypt generator cost repo times dto db ≡ r
      → login (auth_service bcrypt generator cost repo) times (ok dto) db ≡ tokens_or login_error r
  unfolding login auth_service
  answered dto r h = ap (tokens_or login_error) h

  -- For a body that was decoded, the login handler over the service answers 400 with the missing
  -- field for an empty email and then for an empty password, 401 invalid credentials for every
  -- email that the repository does not answer and every password that does not match, 200 with
  -- the tokens that were issued for the stored id and the email if the generator makes them, and
  -- otherwise what the handler makes of the generator's error.
  pub login-LoginAnswer :
      (dto : LoginDto)
      → LoginAnswer dto (login (auth_service bcrypt generator cost repo) times (ok dto) db)
  unfolding login_error
  login-LoginAnswer dto = elim (authenticate_outcome bcrypt generator cost repo times dto db) [
    | inl (e, r) ↦ inl (e, answered dto _ r)
    | inr (inl (e, p, r)) ↦ inr (inl (e, p, answered dto _ r))
    | inr (inr (e, p, inl (refused, r))) ↦ inr (inr (e, p, inl (refused, answered dto _ r)))
    | inr (inr (e, p, inr granted)) ↦
        elim (Result-cases (run bcrypt generator cost repo times dto db)) [
          | inl (tokens, r) ↦ inr (
              inr (
                e,
                p,
                inr (
                    inl (
                      tokens,
                      subst (IsGranted bcrypt generator cost repo times dto db) r granted,
                      answered dto _ r,
                    )),
              ))
          | inr (f, r) ↦ inr (
              inr (
                e,
                p,
                inr (
                    inr (
                      f,
                      subst (IsGranted bcrypt generator cost repo times dto db) r granted,
                      answered dto _ r,
                    )),
              ))
        ]
  ]

module _ {Db : Type 0} (service : ServiceApi Db) (times : ℕ → ℕ → ℕ) where
  abbrev pub RefreshAnswer : RefreshTokenDto → Served AuthTokens → Type 0
  RefreshAnswer dto r =
      (dto.refresh_token ≡ "") × (r ≡ served (write_error 400 "refresh_token is required"))
      ⊎ ((tokens : AuthTokens) × (service.refresh_tokens times dto.refresh_token ≡ ok tokens)
          × (r ≡ served (write_json 200 tokens)))
      ⊎ (service.refresh_tokens times dto.refresh_token ≡ err panic) × (r ≡ panicked)
      ⊎ ((e : GoError) × (response : Response AuthTokens) × (service.refresh_tokens times
              dto.refresh_token
            ≡ err (error e))
          × RefreshStatus e response
          × (r ≡ served response))

  refresh_token_answer :
      (dto : RefreshTokenDto) → RefreshAnswer dto (refresh_token service times (ok dto))
  unfolding refresh_token validate_refresh
  refresh_token_answer dto = elim (Bool-cases (str_eq dto.refresh_token "")) [
    | inl blank ↦ inl ((eq_iff dto.refresh_token "").0 blank, rw blank refl)
    | inr there ↦ elim (Result-cases (service.refresh_tokens times dto.refresh_token)) [
      | inl (tokens, r) ↦ inr (inl (tokens, r, rw (there, r) refl))
      | inr (panic, r) ↦ inr (inr (inl (r, rw (there, r) refl)))
      | inr (error e, r) ↦
          inr (inr (inr (e, refresh_error e, r, refresh_error-RefreshStatus e, rw (there, r) refl)))
    ]
  ]

  abbrev LogoutAnswer : (ℕ → ℕ) → String → Served AuthTokens → Type 0
  LogoutAnswer clock header r =
      (extract_token_from_header header ≡ "")
        × (r ≡ served (write_error 401 "missing authorization token"))
      ⊎ (extract_token_from_header header ≢ "")
        × (r
            ≡ logged_out service
                (service.validate_access_token clock (extract_token_from_header header)))

  logout_answer :
      (clock : ℕ → ℕ) (header : String) → LogoutAnswer clock header (logout service clock header)
  unfolding logout
  logout_answer clock header = elim (Bool-cases (str_eq (extract_token_from_header header) "")) [
    | inl blank ↦ inl ((eq_iff (extract_token_from_header header) "").0 blank, rw blank refl)
    | inr there ↦
        inr (λ e. cc ((eq_iff (extract_token_from_header header) "").1 e, there), rw there refl)
  ]
