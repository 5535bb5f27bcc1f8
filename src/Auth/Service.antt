-- ===== src/Auth/Service.antt =====
-- internal/auth: the requests (dto.go), the passwords of user.go, and the service (service.go).
--
-- golang.org/x/crypto/bcrypt is a parameter: `Bcrypt`.
pub mod Login
pub mod Session
use expense_management.Prelude.{
  ℕ, String, Option, none, some, ◌≡◌, ℤ, str_eq, if◌then◌else◌, Result, ok, err, ◌>=>◌,
}
use expense_management.Errors.{GoError, auth, auth_invalid_credentials, auth_validation}
use expense_management.Transport.{User}
use expense_management.Auth.Tokens.{Claims, AuthTokens, Failure, error, TokenGeneratorApi}

pub record LoginDto : Type 0 where
  pub email : String
  pub password : String

pub record RefreshTokenDto : Type 0 where
  pub refresh_token : String

-- `LoginDTO.Validate`; `none` is nil.
unfoldable pub validate_login : LoginDto → Option GoError
validate_login dto =
    if str_eq dto.email ""
    then some (auth_validation "email is required")
    else if str_eq dto.password ""
    then some (auth_validation "password is required")
    else none

-- `RefreshTokenDTO.Validate`
unfoldable pub validate_refresh : RefreshTokenDto → Option GoError
validate_refresh dto =
    if str_eq dto.refresh_token "" then some (auth_validation "refresh_token is required") else none

pub record Bcrypt : Type 0 where
  pub compare_hash_and_password : String → String → Option GoError
  pub generate_from_password : String → ℤ → Result GoError String

-- What bcrypt documents: a hash of a password matches it.
pub record IsBcrypt (bcrypt : Bcrypt) : Type 0 where
  pub matches :
      (password hash : String) (cost : ℤ)
      → bcrypt.generate_from_password password cost ≡ ok hash
      → bcrypt.compare_hash_and_password hash password ≡ none

unfoldable pub verify_password : Bcrypt → String → String → Option GoError
verify_password bcrypt hash password = bcrypt.compare_hash_and_password hash password

-- `HashPassword`, the function and the method with the service's cost.
unfoldable pub hash_password : Bcrypt → ℤ → String → Result GoError String
hash_password bcrypt cost password = bcrypt.generate_from_password password cost

-- `RepositoryAPI`: the hash and the key of a user's name, and a user.
pub record RepositoryApi (Db : Type 0) : Type 0 where
  pub get_password_for_username : String → Db → Result GoError (String × String)
  pub get_user_with_permissions : ℤ → Db → Result GoError User

-- `ServiceAPI`. `times n` is how the clock reads in the n-th call of the token generator.
pub record ServiceApi (Db : Type 0) : Type 0 where
  pub authenticate : (ℕ → ℕ → ℕ) → LoginDto → Db → Result Failure AuthTokens
  pub refresh_tokens : (ℕ → ℕ → ℕ) → String → Result Failure AuthTokens
  pub validate_access_token : (ℕ → ℕ) → String → Result Failure Claims
  pub get_user_with_permissions : ℤ → Db → Result GoError User
  pub hash_password : String → Result GoError String

-- `if err := …; err != nil { return err }`
abbrev pub require : Option GoError → Result Failure (Unit {0})
require none = ok tt
require (some e) = err (error e)

-- Whatever the error was, it is not told.
abbrev pub or_invalid_credentials : {A : Type 0} → Result GoError A → Result Failure A
or_invalid_credentials (ok a) = ok a
or_invalid_credentials (err e) = err (error (auth auth_invalid_credentials))

abbrev pub matched : Option GoError → Result Failure (Unit {0})
matched none = ok tt
matched (some e) = err (error (auth auth_invalid_credentials))

module _ (generator : TokenGeneratorApi) where
  -- The end of `Authenticate` and of `RefreshTokens`: an access token, then a refresh token.
  unfoldable pub issue : (ℕ → ℕ) → (ℕ → ℕ) → String → String → Result Failure AuthTokens
  issue first second user_id email =
      generator.generate_access_token first user_id email >=> λ access.
      generator.generate_refresh_token second user_id email >=> λ refresh.
      ok (record { access_token = access; refresh_token = refresh })

  unfoldable pub refresh_tokens : (ℕ → ℕ → ℕ) → String → Result Failure AuthTokens
  unfolding issue
  refresh_tokens times refresh_token =
      generator.validate_token (times 0) refresh_token >=> λ claims.
      issue (times 1) (times 2) claims.user_id claims.email

module _ {Db : Type 0} (bcrypt : Bcrypt) (generator : TokenGeneratorApi) (bcrypt_cost : ℤ)
    (repo : RepositoryApi Db) where
  unfoldable pub authenticate : (ℕ → ℕ → ℕ) → LoginDto → Db → Result Failure AuthTokens
  unfolding issue validate_login verify_password
  authenticate times dto db = require (validate_login dto) >=> λ _.
      or_invalid_credentials (repo.get_password_for_username dto.email db) >=> λ (hash, user_id).
      matched (verify_password bcrypt hash dto.password) >=> λ _.
      issue generator (times 0) (times 1) user_id dto.email

  -- `NewService`
  unfoldable pub auth_service : ServiceApi Db
  unfolding authenticate refresh_tokens
  auth_service = record {
    authenticate = authenticate;
    refresh_tokens = refresh_tokens generator;
    validate_access_token = generator.validate_token;
    get_user_with_permissions = repo.get_user_with_permissions;
    hash_password = hash_password bcrypt bcrypt_cost;
  }
