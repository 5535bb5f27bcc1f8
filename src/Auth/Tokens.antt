-- ===== src/Auth/Tokens.antt =====
-- internal/auth: the tokens of service.go (`JWTTokenGenerator`) and the claims of user.go.
--
-- github.com/golang-jwt/jwt/v5 is a parameter: `Jwt`. Instants and durations are nanoseconds. Time
-- to live is not negative. Issuer, Audience and ID of the registered claims are never set or read.
pub mod Laws
pub mod RoundTrip
use expense_management.Prelude.{
  ℕ, suc, ◌+◌, ◌-◌, ◌<◌, ◌≤◌, String, Option, none, some, Bool, true, false, ◌≡◌, ◌<>◌, ltb, leb,
  if◌then◌else◌, Result, ok, err,
}
use expense_management.Errors.{GoError, msg, auth, auth_invalid_token, auth_token_expired}

-- `Claims` with `jwt.RegisteredClaims`: a token without the claim has a nil pointer there.
pub record Claims : Type 0 where
  pub user_id : String
  pub email : String
  pub expires_at : Option ℕ
  pub not_before : Option ℕ
  pub issued_at : Option ℕ
  pub subject : String

pub record AuthTokens : Type 0 where
  pub access_token : String
  pub refresh_token : String

-- Why a call does not come to its value: Go's panic, or the error that it returns.
pub data Failure : Type 0 where
  panic : Failure
  error : GoError → Failure

-- `jwt.Token` as `ParseWithClaims` returns it.
pub record ParsedToken : Type 0 where
  pub claims : Claims
  pub valid : Bool

-- The errors of `ParseWithClaims`, told apart by `errors.Is(err, jwt.ErrTokenExpired)`.
pub data JwtError : Type 0 where
  jwt_panic : JwtError
  jwt_expired : JwtError
  jwt_other : String → JwtError

-- `token.Method`, HMAC or not, with the name that `token.Header["alg"]` has.
pub data SigningMethod : Type 0 where
  hmac : String → SigningMethod
  not_hmac : String → SigningMethod

-- `jwt.Keyfunc`, on a token that is not verified yet.
abbrev pub Keyfunc : Type 0
Keyfunc = SigningMethod → Claims → Result Failure String

pub record Jwt : Type 0 where
  -- `NewNumericDate`, which cuts the fraction of a second off.
  pub new_numeric_date : ℕ → ℕ
  -- `NewWithClaims(SigningMethodHS256, claims).SignedString(secret)`
  pub sign : String → Claims → Result GoError String
  -- `ParseWithClaims`, at the instant when it looks at the claims.
  pub parse_with_claims : ℕ → String → Keyfunc → Result JwtError ParsedToken

-- The claims hold at an instant: `exp` and `nbf`, where they are there.
abbrev pub before_expiry : ℕ → Option ℕ → Bool
before_expiry now none = true
before_expiry now (some e) = ltb now e

abbrev pub after_start : ℕ → Option ℕ → Bool
after_start now none = true
after_start now (some b) = leb b now

abbrev pub IsLive : ℕ → Claims → Type 0
IsLive now c = (before_expiry now c.expires_at ≡ true) × (after_start now c.not_before ≡ true)

-- The claims survive their encoding: dates are whole seconds.
abbrev pub IsWholeDate : Jwt → Option ℕ → Type 0
IsWholeDate jwt none = Unit
IsWholeDate jwt (some t) = jwt.new_numeric_date t ≡ t

abbrev pub IsWhole : Jwt → Claims → Type 0
IsWhole jwt c =
    IsWholeDate jwt c.expires_at × IsWholeDate jwt c.not_before × IsWholeDate jwt c.issued_at

-- What the library documents, by what a token says (`decode`: its method and its claims)
-- and by whether its signature is a secret's (`verify`).
pub record IsJwt (jwt : Jwt) (decode : String → Option (SigningMethod × Claims))
    (verify : String → String → Bool) : Type 0 where
  -- The empty text is no token.
  pub decode_empty : decode "" ≡ none
  pub numeric_date_le : (t : ℕ) → jwt.new_numeric_date t ≤ t
  pub numeric_date_lt : (t : ℕ) → t < jwt.new_numeric_date t + 1000000000
  pub numeric_date_idem :
      (t : ℕ) → jwt.new_numeric_date (jwt.new_numeric_date t) ≡ jwt.new_numeric_date t
  pub sign_decode :
      (secret : String) (c : Claims) (t : String)
      → jwt.sign secret c ≡ ok t
      → IsWhole jwt c
      → decode t ≡ some (hmac "HS256", c)
  pub sign_verify :
      (secret : String) (c : Claims) (t : String)
      → jwt.sign secret c ≡ ok t
      → verify secret t ≡ true
  pub parse_accepts :
      (now : ℕ) (t : String) (key : Keyfunc) (method : SigningMethod) (c : Claims) (secret : String)
      → decode t ≡ some (method, c)
      → key method c ≡ ok secret
      → verify secret t ≡ true
      → IsLive now c
      → jwt.parse_with_claims now t key ≡ ok (record { claims = c; valid = true })
  pub parse_ok :
      (now : ℕ) (t : String) (key : Keyfunc) (p : ParsedToken)
      → jwt.parse_with_claims now t key ≡ ok p
      → (method : SigningMethod) × (secret : String) × (decode t ≡ some (method, p.claims))
        × (key method p.claims ≡ ok secret)
        × (verify secret t ≡ true)
        × IsLive now p.claims
  pub parse_expired :
      (now : ℕ) (t : String) (key : Keyfunc) (method : SigningMethod) (c : Claims) (secret : String)
      (e : ℕ)
      → decode t ≡ some (method, c)
      → key method c ≡ ok secret
      → verify secret t ≡ true
      → c.expires_at ≡ some e
      → e ≤ now
      → jwt.parse_with_claims now t key ≡ err jwt_expired
  pub parse_bad_signature :
      (now : ℕ) (t : String) (key : Keyfunc) (method : SigningMethod) (c : Claims) (secret : String)
      → decode t ≡ some (method, c)
      → key method c ≡ ok secret
      → verify secret t ≡ false
      → (m : String) × (jwt.parse_with_claims now t key ≡ err (jwt_other m))
  pub parse_panic :
      (now : ℕ) (t : String) (key : Keyfunc) (method : SigningMethod) (c : Claims)
      → decode t ≡ some (method, c)
      → key method c ≡ err panic
      → jwt.parse_with_claims now t key ≡ err jwt_panic
  pub parse_undecoded :
      (now : ℕ) (t : String) (key : Keyfunc)
      → decode t ≡ none
      → (m : String) × (jwt.parse_with_claims now t key ≡ err (jwt_other m))

-- `JWTTokenGenerator`
pub record JwtTokenGenerator : Type 0 where
  pub access_token_secret : String
  pub refresh_token_secret : String
  pub access_token_ttl : ℕ
  pub refresh_token_ttl : ℕ

-- `TokenGeneratorAPI`: a call reads the clock as often as it likes.
pub record TokenGeneratorApi : Type 0 where
  pub generate_access_token : (ℕ → ℕ) → String → String → Result Failure String
  pub generate_refresh_token : (ℕ → ℕ) → String → String → Result Failure String
  pub validate_token : (ℕ → ℕ) → String → Result Failure Claims

unfoldable pub new_jwt_token_generator : String → String → ℕ → ℕ → JwtTokenGenerator
new_jwt_token_generator access_secret refresh_secret access_ttl refresh_ttl = record {
  access_token_secret = access_secret;
  refresh_token_secret = refresh_secret;
  access_token_ttl = access_ttl;
  refresh_token_ttl = refresh_ttl;
}

-- `time.Until`, which stays within a Duration. What is past is not longer than any time to live.
abbrev pub until : ℕ → ℕ → ℕ
until now t = if leb (t - now) 9223372036854775807 then t - now else 9223372036854775807

module _ (jwt : Jwt) (j : JwtTokenGenerator) where
  abbrev pub signed_string : Result GoError String → Result Failure String
  signed_string (ok t) = ok t
  signed_string (err e) = err (error e)

  abbrev pub new_claims : (ℕ → ℕ) → ℕ → String → String → Claims
  new_claims clock ttl user_id email = record {
    user_id = user_id;
    email = email;
    expires_at = some (jwt.new_numeric_date (clock 0 + ttl));
    not_before = none;
    issued_at = some (jwt.new_numeric_date (clock 1));
    subject = user_id;
  }

  unfoldable pub generate_access_token : (ℕ → ℕ) → String → String → Result Failure String
  generate_access_token clock user_id email =
      let claims = new_claims clock j.access_token_ttl user_id email in
      signed_string (jwt.sign j.access_token_secret claims)

  unfoldable pub generate_refresh_token : (ℕ → ℕ) → String → String → Result Failure String
  generate_refresh_token clock user_id email =
      let claims = new_claims clock j.refresh_token_ttl user_id email in
      signed_string (jwt.sign j.refresh_token_secret claims)

  abbrev pub key_until : ℕ → Option ℕ → Result Failure String
  key_until now none = err panic
  key_until now (some e) =
      if ltb j.access_token_ttl (until now e)
      then ok j.refresh_token_secret
      else ok j.access_token_secret

  -- The key function of `ValidateToken`: `claims.ExpiresAt.Time` of a token without `exp` is read
  -- through a nil pointer.
  unfoldable pub key_for : ℕ → Keyfunc
  key_for now (not_hmac alg) c = err (error (msg ("unexpected signing method: " <> alg)))
  key_for now (hmac alg) c = key_until now c.expires_at

  unfoldable pub checked_claims : Result JwtError ParsedToken → Result Failure Claims
  checked_claims (ok p) = if p.valid then ok p.claims else err (error (auth auth_invalid_token))
  checked_claims (err jwt_panic) = err panic
  checked_claims (err jwt_expired) = err (error (auth auth_token_expired))
  checked_claims (err (jwt_other m)) = err (error (auth auth_invalid_token))

  unfoldable pub validate_token : (ℕ → ℕ) → String → Result Failure Claims
  unfolding checked_claims
  validate_token clock token =
      checked_claims (jwt.parse_with_claims (clock 1) token (key_for (clock 0)))

  unfoldable pub jwt_token_generator : TokenGeneratorApi
  unfolding generate_access_token generate_refresh_token validate_token
  jwt_token_generator = record {
    generate_access_token = generate_access_token;
    generate_refresh_token = generate_refresh_token;
    validate_token = validate_token;
  }
