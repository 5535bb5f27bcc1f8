-- ===== src/Examples/Accounts.antt =====
-- Tokens and logins on concrete data.
use expense_management.Prelude.{
  ℕ, suc, ◌<◌, ◌≤◌, String, ◌<>◌, [], ◌∷◌, none, some, ◌≡◌, ◌⊎◌, refl, pos, str_eq, if◌then◌else◌,
  parse_int, Result, ok, err, arith,
}
use expense_management.Errors.{msg, auth, auth_token_expired}
use expense_management.Transport.{
  User, served, panicked, write_json, write_error, extract_token_from_header,
}
use expense_management.Auth.Rbac.{HandlerFunc}
use expense_management.Auth.Tokens.{
  Claims, AuthTokens, Failure, error, JwtTokenGenerator, new_jwt_token_generator,
  jwt_token_generator, generate_access_token, generate_refresh_token, validate_token, key_for,
  new_claims,
}
use expense_management.Auth.Tokens.RoundTrip.{
  validate-generate_access_token, shared_secret-refresh_is_access, validate_token-IsTrusted,
  IsTrusted,
}
use expense_management.Auth.Service.{
  Bcrypt, RepositoryApi, LoginDto, validate_login, verify_password, authenticate, auth_service,
  issue, refresh_tokens,
}
use expense_management.Auth.Service.Session.{refresh_tokens-IsPairOf, IsPairOf}
use expense_management.Auth.Handlers.{login, auth_middleware}
use expense_management.Auth.Handlers.Answers.{LoginAnswer, login-LoginAnswer}
use expense_management.Auth.Handlers.Entry.{login_reaches_handler, auth_middleware-panics}
use expense_management.Auth.Service.Login.{LoginOutcome, run, authenticate_outcome}
use expense_management.Examples.Tokens.{
  sample_jwt, sample_jwt-IsJwt, decode, verify, write_token as forged,
}

abbrev pub generator : JwtTokenGenerator
generator = new_jwt_token_generator "access" "refresh" 5 9

abbrev shared_generator : JwtTokenGenerator
shared_generator = new_jwt_token_generator "secret" "secret" 5 9

-- The time of issue, and the time of use.
abbrev issued : ℕ → ℕ
issued n = 1

abbrev pub used : ℕ → ℕ
used n = 3

abbrev times : ℕ → ℕ → ℕ
times n = issued

abbrev the_token : Result Failure String → String
the_token (ok t) = t
the_token (err e) = ""

abbrev pub access_token : String
access_token = the_token (generate_access_token sample_jwt generator issued "7" "ana@x.id")

validate-generate_access_token_example :
    let claims = new_claims sample_jwt generator issued 5 "7" "ana@x.id" in
    (validate_token sample_jwt generator used access_token ≡ ok claims) × (3 < 6)
    ⊎ (validate_token sample_jwt generator used access_token
        ≡ err (error (auth auth_token_expired)))
      × (6 ≤ 3)
unfolding generate_access_token new_jwt_token_generator
validate-generate_access_token_example =
    validate-generate_access_token sample_jwt generator decode verify sample_jwt-IsJwt issued used
      "7" "ana@x.id" access_token refl (omega arith)

abbrev shared_refresh_token : String
shared_refresh_token =
    the_token (generate_refresh_token sample_jwt shared_generator issued "7" "ana@x.id")

-- The refresh token of the shared secret, used as an access token after that has expired.
shared_secret-refresh_is_access_example :
    let claims = new_claims sample_jwt shared_generator issued 9 "7" "ana@x.id" in
    (validate_token sample_jwt shared_generator (λ n. 8) shared_refresh_token ≡ ok claims)
      × (8 < 10)
    ⊎ (validate_token sample_jwt shared_generator (λ n. 8) shared_refresh_token
        ≡ err (error (auth auth_token_expired)))
      × (10 ≤ 8)
unfolding generate_refresh_token new_jwt_token_generator
shared_secret-refresh_is_access_example =
    shared_secret-refresh_is_access sample_jwt shared_generator decode verify sample_jwt-IsJwt
      issued (λ n. 8) "7" "ana@x.id" shared_refresh_token refl refl

abbrev ana_claims : Claims
ana_claims = new_claims sample_jwt generator issued 5 "7" "ana@x.id"

validate_token-IsTrusted_example :
    IsTrusted sample_jwt generator decode verify sample_jwt-IsJwt used access_token ana_claims
unfolding generate_access_token new_jwt_token_generator validate_token key_for
validate_token-IsTrusted_example =
    validate_token-IsTrusted sample_jwt generator decode verify sample_jwt-IsJwt used access_token
      ana_claims refl

abbrev new_tokens : AuthTokens
new_tokens = record {
  access_token = access_token;
  refresh_token = the_token (generate_refresh_token sample_jwt generator issued "7" "ana@x.id");
}

-- An access token is exchanged for a new pair.
refresh_tokens-IsPairOf_example :
    (c : Claims) × IsTrusted sample_jwt generator decode verify sample_jwt-IsJwt
      (times 0)
      access_token
      c
    × IsPairOf decode verify generator c.user_id c.email new_tokens
unfolding generate_access_token generate_refresh_token new_jwt_token_generator refresh_tokens
    validate_token jwt_token_generator issue key_for
refresh_tokens-IsPairOf_example =
    refresh_tokens-IsPairOf sample_jwt generator decode verify sample_jwt-IsJwt times access_token
      new_tokens refl

abbrev pub ana : User
ana = record { id = pos 7; email = "ana@x.id"; permissions = "approve_expenses" ∷ [] }

abbrev pub sample_bcrypt : Bcrypt
sample_bcrypt = record {
  compare_hash_and_password = λ hash password.
      if str_eq hash ("#" <> password) then none else some (msg "hashedPassword is not the hash");
  generate_from_password = λ password cost. ok ("#" <> password);
}

-- The state counts the requests that reached the handler.
abbrev pub sample_repo : RepositoryApi ℕ
sample_repo = record {
  get_password_for_username = λ email db. ok ("#pass", "7");
  get_user_with_permissions = λ id db. ok ana;
}

abbrev pub count_request : HandlerFunc ℕ String
count_request none db = (write_error 500 "no user", db)
count_request (some user) db = (write_json 200 user.email, suc db)

abbrev login_dto : LoginDto
login_dto = record { email = "ana@x.id"; password = "pass" }

login_reaches_handler_example :
    (tokens : AuthTokens) × (authenticate sample_bcrypt
        (jwt_token_generator sample_jwt generator)
        (pos 12)
        sample_repo
        times
        login_dto
        0
      ≡ ok tokens)
    × (auth_middleware
          (auth_service sample_bcrypt
            (jwt_token_generator sample_jwt generator)
            (pos 12)
            sample_repo)
          used
          ("Bearer " <> tokens.access_token)
          count_request
          0
        ≡ (served (count_request (some ana) 0).0, (count_request (some ana) 0).1))
unfolding new_jwt_token_generator validate_login verify_password parse_int
login_reaches_handler_example =
    login_reaches_handler sample_bcrypt (pos 12) sample_repo sample_jwt generator decode verify
      sample_jwt-IsJwt (λ secret c. (_, refl)) times used login_dto count_request 0 "#pass" "7"
      (pos 7) ana refl refl refl refl refl (omega arith) (omega arith)

-- A token with no expiry, which anybody can write.
abbrev endless : String
endless = the_token (ok (forged "nobody" (record ana_claims { expires_at = none })))

auth_middleware-panics_example :
    auth_middleware
      (auth_service sample_bcrypt (jwt_token_generator sample_jwt generator) (pos 12) sample_repo)
      used
      ("Bearer " <> endless)
      count_request
      0
    ≡ (panicked, 0)
unfolding extract_token_from_header new_jwt_token_generator
auth_middleware-panics_example =
    auth_middleware-panics sample_bcrypt (pos 12) sample_repo sample_jwt generator decode verify
      sample_jwt-IsJwt (λ secret c. (_, refl)) used ("Bearer " <> endless) "HS256"
      (record ana_claims { expires_at = none }) count_request 0 refl refl

authenticate_outcome_example :
    LoginOutcome sample_bcrypt
      (jwt_token_generator sample_jwt generator)
      (pos 12)
      sample_repo
      times
      login_dto
      0
      (run sample_bcrypt
        (jwt_token_generator sample_jwt generator)
        (pos 12)
        sample_repo
        times
        login_dto
        0)
authenticate_outcome_example =
    authenticate_outcome sample_bcrypt (jwt_token_generator sample_jwt generator) (pos 12)
      sample_repo times login_dto 0

login-LoginAnswer_example :
    LoginAnswer sample_bcrypt
      (jwt_token_generator sample_jwt generator)
      (pos 12)
      sample_repo
      times
      0
      (record { email = "ana@x.id"; password = "guess" })
      (login
        (auth_service sample_bcrypt (jwt_token_generator sample_jwt generator) (pos 12) sample_repo)
        times
        (ok (record { email = "ana@x.id"; password = "guess" }))
        0)
login-LoginAnswer_example =
    login-LoginAnswer sample_bcrypt (jwt_token_generator sample_jwt generator) (pos 12) sample_repo
      times 0 (record { email = "ana@x.id"; password = "guess" })
