-- ===== src/Auth/Handlers.antt =====
-- internal/auth/handler.go. A request's body comes decoded, or with the decoder's error; the header
-- is the text of `Authorization`.
pub mod Middleware
pub mod Entry
pub mod Answers
use expense_management.Prelude.{
  ℕ, String, Option, none, some, ℤ, pos, str_eq, if◌then◌else◌, parse_int, Result, ok, err,
}
use expense_management.Errors.{
  GoError, auth, auth_invalid_credentials, auth_invalid_token, auth_token_expired,
  auth_user_inactive, auth_validation, error_text,
}
use expense_management.Transport.{
  User, Response, Served, served, panicked, empty, write_json, write_error,
  extract_token_from_header,
}
use expense_management.Auth.Rbac.{HandlerFunc}
use expense_management.Auth.Tokens.{Claims, AuthTokens, Failure, panic, error}
use expense_management.Auth.Service.{LoginDto, RefreshTokenDto, ServiceApi, validate_refresh}

-- The switch of `Login` on the error.
unfoldable pub login_error : GoError → Response AuthTokens
unfolding write_error error_text
login_error (auth auth_invalid_credentials) = write_error 401 "invalid credentials"
login_error (auth auth_user_inactive) = write_error 401 "user is inactive"
login_error (auth_validation m) = write_error 400 (error_text (auth_validation m))
login_error _ = write_error 500 "internal server error"

-- The switch of `RefreshToken` on the error.
unfoldable pub refresh_error : GoError → Response AuthTokens
unfolding write_error
refresh_error (auth auth_invalid_token) = write_error 401 "invalid refresh token"
refresh_error (auth auth_token_expired) = write_error 401 "invalid refresh token"
refresh_error (auth auth_user_inactive) = write_error 401 "user is inactive"
refresh_error _ = write_error 500 "internal server error"

abbrev pub tokens_or :
    (GoError → Response AuthTokens) → Result Failure AuthTokens → Served AuthTokens
tokens_or on_error (ok tokens) = served (write_json 200 tokens)
tokens_or on_error (err panic) = panicked
tokens_or on_error (err (error e)) = served (on_error e)

module _ {Db : Type 0} (service : ServiceApi Db) where
  unfoldable pub login : (ℕ → ℕ → ℕ) → Result GoError LoginDto → Db → Served AuthTokens
  unfolding write_error write_json login_error
  login times (err e) db = served (write_error 400 "invalid request body")
  login times (ok dto) db = tokens_or login_error (service.authenticate times dto db)

  abbrev refreshed : (ℕ → ℕ → ℕ) → RefreshTokenDto → Option GoError → Served AuthTokens
  refreshed times dto (some e) = served (write_error 400 (error_text e))
  refreshed times dto none =
      tokens_or refresh_error (service.refresh_tokens times dto.refresh_token)

  unfoldable pub refresh_token : (ℕ → ℕ → ℕ) → Result GoError RefreshTokenDto → Served AuthTokens
  unfolding write_error write_json refresh_error error_text validate_refresh
  refresh_token times (err e) = served (write_error 400 "invalid request body")
  refresh_token times (ok dto) = refreshed times dto (validate_refresh dto)

  abbrev pub logged_out : Result Failure Claims → Served AuthTokens
  logged_out (ok claims) = served (record { status = 204; body = empty })
  logged_out (err panic) = panicked
  logged_out (err (error e)) = served (write_error 401 "invalid token")

  -- Nothing is kept: the token stays valid.
  unfoldable pub logout : (ℕ → ℕ) → String → Served AuthTokens
  unfolding write_error extract_token_from_header
  logout clock header =
      let token = extract_token_from_header header in
      if str_eq token ""
      then served (write_error 401 "missing authorization token")
      else logged_out (service.validate_access_token clock token)

  -- `strconv.ParseInt` of the claim; 0 for an empty one, and for one that is not a number.
  abbrev or_zero : Option ℤ → ℤ
  or_zero none = pos 0
  or_zero (some n) = n

  unfoldable pub uid_of : Claims → ℤ
  unfolding parse_int
  uid_of claims = if str_eq claims.user_id "" then pos 0 else or_zero (parse_int claims.user_id)

  module _ {A : Type 0} where
    abbrev pub with_user : HandlerFunc Db A → Result GoError User → Db → Served A × Db
    with_user next (err e) db = (served (write_error 401 "user not found"), db)
    with_user next (ok user) db = let (r, db') = next (some user) db in (served r, db')

    abbrev pub with_claims : HandlerFunc Db A → Result Failure Claims → Db → Served A × Db
    with_claims next (err panic) db = (panicked, db)
    with_claims next (err (error e)) db = (served (write_error 401 "invalid token"), db)
    with_claims next (ok claims) db =
        with_user next (service.get_user_with_permissions (uid_of claims) db) db

    unfoldable pub auth_middleware : (ℕ → ℕ) → String → HandlerFunc Db A → Db → Served A × Db
    unfolding write_error extract_token_from_header uid_of
    auth_middleware clock header next db =
        let token = extract_token_from_header header in
        if str_eq token ""
        then (served (write_error 401 "missing authorization token"), db)
        else with_claims next (service.validate_access_token clock token) db
