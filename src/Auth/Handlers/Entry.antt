-- ===== src/Auth/Handlers/Entry.antt =====
-- internal/auth: from the password to the guarded handler, over service.go and handler.go.
use expense_management.Prelude.{
  ℕ, ◌<◌, ◌≤◌, ◌+◌, String, ◌<>◌, Option, none, some, Bool, ◌≡◌, refl, ℤ, parse_int,
  parse_int-ne_nil, ok, sym, ◌∙◌,
}
use expense_management.Transport.{User, served, panicked, extract_token_from_header}
use expense_management.Transport.Header.{extract_token_from_header-bearer}
use expense_management.Auth.Rbac.{HandlerFunc}
use expense_management.Auth.Tokens.{
  Claims, AuthTokens, Jwt, IsJwt, SigningMethod, hmac, JwtTokenGenerator, jwt_token_generator,
  generate_access_token, generate_refresh_token, new_claims,
}
use expense_management.Auth.Tokens.Laws.{generated, validate_token-panics}
use expense_management.Auth.Service.{
  Bcrypt, RepositoryApi, LoginDto, auth_service, authenticate, issue, validate_login,
  verify_password,
}
use expense_management.Auth.Service.Login.{authenticate-right}
use expense_management.Auth.Service.Session.{issue-ok}
use expense_management.Auth.Tokens.RoundTrip.{access_token_live}
use expense_management.Auth.Handlers.{auth_middleware, uid_of}
use expense_management.Auth.Handlers.Middleware.{auth_middleware-passes, auth_middleware-stops}

module _ (jwt : Jwt) (j : JwtTokenGenerator)
    (signs : (secret : String) (c : Claims) → (t : String) × (jwt.sign secret c ≡ ok t)) where
  issue-total :
      (first second : ℕ → ℕ) (user_id email : String)
      → (tokens : AuthTokens) × (issue (jwt_token_generator jwt j) first second user_id email
          ≡ ok tokens)
  unfolding issue jwt_token_generator generate_access_token generate_refresh_token
  issue-total first second user_id email =
      let (access, a) =
        signs j.access_token_secret (new_claims jwt j first j.access_token_ttl user_id email) in
      let (refresh, r) =
        signs j.refresh_token_secret (new_claims jwt j second j.refresh_token_ttl user_id email) in
      (record { access_token = access; refresh_token = refresh }, rw (a, r) refl)

module _ {Db : Type 0} (bcrypt : Bcrypt) (cost : ℤ) (repo : RepositoryApi Db) (jwt : Jwt)
    (j : JwtTokenGenerator) where
  uid_of-parse_int :
      (c : Claims) (id : ℤ)
      → parse_int c.user_id ≡ some id
      → uid_of (auth_service bcrypt (jwt_token_generator jwt j) cost repo) c ≡ id
  unfolding uid_of
  uid_of-parse_int c id h = rw (parse_int-ne_nil c.user_id id h, h) refl

module _ {Db A : Type 0} (bcrypt : Bcrypt) (cost : ℤ) (repo : RepositoryApi Db) (jwt : Jwt)
    (j : JwtTokenGenerator) (decode : String → Option (SigningMethod × Claims))
    (verify : String → String → Bool) (laws : IsJwt jwt decode verify)
    (signs : (secret : String) (c : Claims) → (t : String) × (jwt.sign secret c ≡ ok t)) where
  -- With a token library that keeps its laws and can sign, a login whose email and password are
  -- not empty, whose password matches the hash that the repository has for the email, succeeds,
  -- and its access token, sent as a bearer token before it expires, takes the request through the
  -- authentication middleware to the handler, as the user that the repository has for the id, if
  -- that id is a number and the repository finds the user.
  pub login_reaches_handler :
      (times : ℕ → ℕ → ℕ) (used : ℕ → ℕ) (dto : LoginDto) (next : HandlerFunc Db A) (db : Db)
      (hash user_id : String) (id : ℤ) (user : User)
      → validate_login dto ≡ none
      → repo.get_password_for_username dto.email db ≡ ok (hash, user_id)
      → verify_password bcrypt hash dto.password ≡ none
      → parse_int user_id ≡ some id
      → repo.get_user_with_permissions id db ≡ ok user
      → times 0 0 ≤ used 0
      → used 1 < jwt.new_numeric_date (times 0 0 + j.access_token_ttl)
      → (tokens : AuthTokens) × (authenticate bcrypt
            (jwt_token_generator jwt j)
            cost
            repo
            times
            dto
            db
          ≡ ok tokens)
        × (auth_middleware
              (auth_service bcrypt (jwt_token_generator jwt j) cost repo)
              used
              ("Bearer " <> tokens.access_token)
              next
              db
            ≡ (served (next (some user) db).0, (next (some user) db).1))
  unfolding jwt_token_generator generate_access_token auth_service
  login_reaches_handler times used dto next db hash user_id id user valid u w p g later before =
      let generator = jwt_token_generator jwt j in
      let (tokens, issued) = issue-total jwt j signs (times 0) (times 1) user_id dto.email in
      let (a, _) = issue-ok generator (times 0) (times 1) user_id dto.email tokens issued in
      let found = extract_token_from_header-bearer tokens.access_token in
      let claims = new_claims jwt j (times 0) j.access_token_ttl user_id dto.email in
      let (d, _) =
        generated jwt j decode verify laws j.access_token_secret (times 0) j.access_token_ttl
          user_id dto.email tokens.access_token a in
      (
        tokens,
        authenticate-right bcrypt generator cost repo times dto db hash user_id valid u w ∙ issued,
        auth_middleware-passes (auth_service bcrypt generator cost repo) used
            ("Bearer " <> tokens.access_token) next db claims user
            (λ blank. cc (laws.decode_empty, d, sym found ∙ blank))
            (rw found (
              access_token_live jwt j decode verify laws (times 0) used user_id dto.email
                tokens.access_token a later before))
            (rw (uid_of-parse_int bcrypt cost repo jwt j claims id p) g),
      )

  -- With a token library that keeps its laws, a bearer token of an HMAC method whose claims have
  -- no expiry makes the authentication middleware panic, whoever signed it, and leaves the state
  -- as it was.
  pub auth_middleware-panics :
      (clock : ℕ → ℕ) (header alg : String) (c : Claims) (next : HandlerFunc Db A) (db : Db)
      → decode (extract_token_from_header header) ≡ some (hmac alg, c)
      → c.expires_at ≡ none
      → auth_middleware
          (auth_service bcrypt (jwt_token_generator jwt j) cost repo)
          clock
          header
          next
          db
        ≡ (panicked, db)
  unfolding jwt_token_generator auth_service
  auth_middleware-panics clock header alg c next db d x =
      auth_middleware-stops (auth_service bcrypt (jwt_token_generator jwt j) cost repo) clock header
        next db (λ blank. cc (laws.decode_empty, d, blank))
        (validate_token-panics jwt j decode verify laws clock (extract_token_from_header header) alg
          c d x)
