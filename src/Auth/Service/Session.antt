-- ===== src/Auth/Service/Session.antt =====
-- internal/auth/service.go: whose tokens `Authenticate` and `RefreshTokens` hand out, with the
-- generator of this file and the repository of any kind.
use expense_management.Prelude.{
  ℕ, ◌+◌, ◌<◌, ◌≤◌, String, Option, some, none, Bool, true, ◌≡◌, refl, sym, ℤ, subst, steps_ok, ok,
}
use expense_management.Auth.Tokens.{
  Claims, Jwt, IsJwt, SigningMethod, hmac, JwtTokenGenerator, jwt_token_generator,
  TokenGeneratorApi, AuthTokens, new_claims, generate_access_token, generate_refresh_token,
  validate_token,
}
use expense_management.Auth.Tokens.Laws.{generated}
use expense_management.Auth.Tokens.RoundTrip.{
  IsTrusted, validate_token-IsTrusted, access_token_live,
}
use expense_management.Auth.Service.{
  Bcrypt, RepositoryApi, LoginDto, issue, refresh_tokens, authenticate, verify_password,
}
use expense_management.Auth.Service.Login.{authenticate-ok}

module _ (generator : TokenGeneratorApi) where
  pub issue-ok :
      (first second : ℕ → ℕ) (user_id email : String) (tokens : AuthTokens)
      → issue generator first second user_id email ≡ ok tokens
      → (generator.generate_access_token first user_id email ≡ ok tokens.access_token)
        × (generator.generate_refresh_token second user_id email ≡ ok tokens.refresh_token)
  unfolding issue
  issue-ok first second user_id email tokens h =
      let (access, a, rest) =
        steps_ok (generator.generate_access_token first user_id email) _ tokens h in
      let (refresh, r, last) =
        steps_ok (generator.generate_refresh_token second user_id email) _ tokens rest in
      let same : record { access_token = access; refresh_token = refresh } ≡ tokens = cc in
      subst
        (λ tk.
          (generator.generate_access_token first user_id email ≡ ok tk.access_token)
          × (generator.generate_refresh_token second user_id email ≡ ok tk.refresh_token))
        same (a, r)

-- A user's tokens: each says whose it is, and is signed with its secret.
abbrev pub IsPairOf :
    (decode : String → Option (SigningMethod × Claims)) (verify : String → String → Bool)
    (j : JwtTokenGenerator)
    → String
    → String
    → AuthTokens
    → Type 0
IsPairOf decode verify j user_id email tokens =
    ((c : Claims) × (decode tokens.access_token ≡ some (hmac "HS256", c))
      × (c.user_id ≡ user_id)
      × (c.email ≡ email)
      × (verify j.access_token_secret tokens.access_token ≡ true))
    × ((c : Claims) × (decode tokens.refresh_token ≡ some (hmac "HS256", c))
        × (c.user_id ≡ user_id)
        × (c.email ≡ email)
        × (verify j.refresh_token_secret tokens.refresh_token ≡ true))

module _ (jwt : Jwt) (j : JwtTokenGenerator) (decode : String → Option (SigningMethod × Claims))
    (verify : String → String → Bool) (laws : IsJwt jwt decode verify) where
  issue-IsPairOf :
      (first second : ℕ → ℕ) (user_id email : String) (tokens : AuthTokens)
      → issue (jwt_token_generator jwt j) first second user_id email ≡ ok tokens
      → IsPairOf decode verify j user_id email tokens
  unfolding generate_access_token generate_refresh_token jwt_token_generator
  issue-IsPairOf first second user_id email tokens h =
      let (a, r) = issue-ok (jwt_token_generator jwt j) first second user_id email tokens h in
      let (ad, av) =
        generated jwt j decode verify laws j.access_token_secret first j.access_token_ttl user_id
          email tokens.access_token a in
      let (rd, rv) =
        generated jwt j decode verify laws j.refresh_token_secret second j.refresh_token_ttl user_id
          email tokens.refresh_token r in
      ((_, ad, refl, refl, av), (_, rd, refl, refl, rv))

  -- With a token library that keeps its laws, whenever a refresh answers two tokens, the token
  -- that it was given was signed with one of the two secrets and had not expired, and the new
  -- access and refresh tokens carry the user id and the email of its claims and are signed with
  -- the access and the refresh secret.
  pub refresh_tokens-IsPairOf :
      (times : ℕ → ℕ → ℕ) (t : String) (tokens : AuthTokens)
      → refresh_tokens (jwt_token_generator jwt j) times t ≡ ok tokens
      → (c : Claims) × IsTrusted jwt j decode verify laws (times 0) t c
        × IsPairOf decode verify j c.user_id c.email tokens
  unfolding refresh_tokens jwt_token_generator
  refresh_tokens-IsPairOf times t tokens h =
      let (c, v, rest) = steps_ok (validate_token jwt j (times 0) t) _ tokens h in
      (
        c,
        validate_token-IsTrusted jwt j decode verify laws (times 0) t c v,
        issue-IsPairOf (times 1) (times 2) c.user_id c.email tokens rest,
      )

module _ {Db : Type 0} (bcrypt : Bcrypt) (cost : ℤ) (repo : RepositoryApi Db) (jwt : Jwt)
    (j : JwtTokenGenerator) (decode : String → Option (SigningMethod × Claims))
    (verify : String → String → Bool) (laws : IsJwt jwt decode verify) where
  -- Whose tokens a login hands out: those of the user whose hash the password matched.
  pub authenticate-IsPairOf :
      (times : ℕ → ℕ → ℕ) (dto : LoginDto) (db : Db) (tokens : AuthTokens)
      → authenticate bcrypt (jwt_token_generator jwt j) cost repo times dto db ≡ ok tokens
      → (hash : String) × (user_id : String) × (repo.get_password_for_username dto.email db
          ≡ ok (hash, user_id))
        × (verify_password bcrypt hash dto.password ≡ none)
        × IsPairOf decode verify j user_id dto.email tokens
  authenticate-IsPairOf times dto db tokens h =
      let (hash, user_id, u, w, r) =
        authenticate-ok bcrypt (jwt_token_generator jwt j) cost repo times dto db tokens h in
      (
        hash,
        user_id,
        u,
        w,
        issue-IsPairOf jwt j decode verify laws (times 0) (times 1) user_id dto.email tokens
            (sym r),
      )

  -- The access token of a login, until it expires.
  pub login_valid :
      (times : ℕ → ℕ → ℕ) (used : ℕ → ℕ) (dto : LoginDto) (db : Db) (tokens : AuthTokens)
      → authenticate bcrypt (jwt_token_generator jwt j) cost repo times dto db ≡ ok tokens
      → times 0 0 ≤ used 0
      → used 1 < jwt.new_numeric_date (times 0 0 + j.access_token_ttl)
      → (hash : String) × (user_id : String) × (repo.get_password_for_username dto.email db
          ≡ ok (hash, user_id))
        × (validate_token jwt j used tokens.access_token
            ≡ ok (new_claims jwt j (times 0) j.access_token_ttl user_id dto.email))
  unfolding generate_access_token jwt_token_generator
  login_valid times used dto db tokens h later before =
      let (hash, user_id, u, w, r) =
        authenticate-ok bcrypt (jwt_token_generator jwt j) cost repo times dto db tokens h in
      let (a, _) =
        issue-ok (jwt_token_generator jwt j) (times 0) (times 1) user_id dto.email tokens (sym r) in
      (
        hash,
        user_id,
        u,
        access_token_live jwt j decode verify laws (times 0) used user_id dto.email
            tokens.access_token a later before,
      )
