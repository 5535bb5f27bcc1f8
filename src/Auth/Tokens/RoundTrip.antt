-- ===== src/Auth/Tokens/RoundTrip.antt =====
-- internal/auth/service.go: which generated tokens `ValidateToken` accepts, and for how long.
use expense_management.Prelude.{
  ℕ, ◌+◌, ◌<◌, ◌≤◌, String, Option, none, some, Bool, true, false, ◌≡◌, refl, ap, ◌∙◌, subst, ◌⊎◌,
  inl, inr, ltb, ltb→lt, Bool-cases, Result, ok, err, arith,
}
use expense_management.Errors.{auth, auth_invalid_token, auth_token_expired}
use expense_management.Auth.Tokens.{
  Claims, Jwt, IsJwt, JwtError, IsLive, SigningMethod, hmac, not_hmac, JwtTokenGenerator, Failure,
  error, new_claims, before_expiry, generate_access_token, generate_refresh_token, validate_token,
  key_for, checked_claims, until, jwt_expired, jwt_panic, jwt_other, ParsedToken,
}
use expense_management.Auth.Tokens.Laws.{
  until_le, key_for-access, key_for-refresh, key_for-IsKey, generated, validate-accepts,
  validate-expired, validate-forged,
}

before_expiry-some :
    (now : ℕ) (o : Option ℕ) (e : ℕ) → before_expiry now o ≡ true → o ≡ some e → now < e
before_expiry-some now none e h x = absurd cc
before_expiry-some now (some b) e h x =
    let same : b ≡ e = cc in subst (λ d. now < d) same (ltb→lt now b h)

module _ (jwt : Jwt) (j : JwtTokenGenerator) (decode : String → Option (SigningMethod × Claims))
    (verify : String → String → Bool) (laws : IsJwt jwt decode verify) where
  -- A token by its expiry, when it is known which key is taken.
  live_or_expired :
      (used : ℕ → ℕ) (t secret : String) (c : Claims) (expiry : ℕ)
      → decode t ≡ some (hmac "HS256", c)
      → key_for jwt j (used 0) (hmac "HS256") c ≡ ok secret
      → verify secret t ≡ true
      → c.expires_at ≡ some expiry
      → c.not_before ≡ none
      → (validate_token jwt j used t ≡ ok c) × (used 1 < expiry)
        ⊎ (validate_token jwt j used t ≡ err (error (auth auth_token_expired))) × (expiry ≤ used 1)
  live_or_expired used t secret c expiry d k v x b = elim (Bool-cases (ltb (used 1) expiry)) [
    | inl live ↦ inl (
      validate-accepts jwt j decode verify laws used t "HS256" secret c d k v
          (rw x live, rw b refl),
      ltb→lt (used 1) expiry live,
    )
    | inr over ↦
        let past : expiry ≤ used 1 = ground arith in
        inr (
          validate-expired jwt j decode verify laws used t "HS256" secret c expiry d k v x past,
          past,
        )
  ]

  abbrev pub RefreshOutcome : (ℕ → ℕ) → Claims → ℕ → Result Failure Claims → Type 0
  RefreshOutcome used c expiry r =
      (j.access_token_ttl < until (used 0) expiry)
        × ((r ≡ ok c) × (used 1 < expiry)
            ⊎ (r ≡ err (error (auth auth_token_expired))) × (expiry ≤ used 1))
      ⊎ (until (used 0) expiry ≤ j.access_token_ttl) × (r ≡ err (error (auth auth_invalid_token)))

  -- With a token library that keeps its laws, an access token that was generated, and is
  -- validated no earlier than that, gives back the claims it was generated from as long as it has
  -- not expired, and the error of an expired token from then on.
  pub validate-generate_access_token :
      (made used : ℕ → ℕ) (user_id email t : String)
      → generate_access_token jwt j made user_id email ≡ ok t
      → made 0 ≤ used 0
      → let claims = new_claims jwt j made j.access_token_ttl user_id email in
        let expiry = jwt.new_numeric_date (made 0 + j.access_token_ttl) in
        (validate_token jwt j used t ≡ ok claims) × (used 1 < expiry)
        ⊎ (validate_token jwt j used t ≡ err (error (auth auth_token_expired))) × (expiry ≤ used 1)
  unfolding generate_access_token
  validate-generate_access_token made used user_id email t h later =
      let claims = new_claims jwt j made j.access_token_ttl user_id email in
      let expiry = jwt.new_numeric_date (made 0 + j.access_token_ttl) in
      let (d, v) =
        generated jwt j decode verify laws j.access_token_secret made j.access_token_ttl user_id
          email t h in
      let k = key_for-access jwt j (used 0) expiry "HS256" claims refl (
        until_le (used 0) expiry j.access_token_ttl
          (omega (arith, laws.numeric_date_le (made 0 + j.access_token_ttl), later))) in
      live_or_expired used t j.access_token_secret claims expiry d k v refl refl

  -- An access token that has not expired.
  pub access_token_live :
      (made used : ℕ → ℕ) (user_id email t : String)
      → generate_access_token jwt j made user_id email ≡ ok t
      → made 0 ≤ used 0
      → used 1 < jwt.new_numeric_date (made 0 + j.access_token_ttl)
      → validate_token jwt j used t ≡ ok (new_claims jwt j made j.access_token_ttl user_id email)
  access_token_live made used user_id email t h later before =
      elim (validate-generate_access_token made used user_id email t h later) [
        | inl (v, _) ↦ v
        | inr (_, over) ↦ absurd (omega (arith, before, over))
      ]

  -- With a second secret: a refresh token is accepted until the time that it has left is no longer
  -- than that of an access token, since the other secret is asked for then.
  pub validate-generate_refresh_token :
      (made used : ℕ → ℕ) (user_id email t : String)
      → generate_refresh_token jwt j made user_id email ≡ ok t
      → verify j.access_token_secret t ≡ false
      → RefreshOutcome used
          (new_claims jwt j made j.refresh_token_ttl user_id email)
          (jwt.new_numeric_date (made 0 + j.refresh_token_ttl))
          (validate_token jwt j used t)
  unfolding generate_refresh_token
  validate-generate_refresh_token made used user_id email t h other =
      let claims = new_claims jwt j made j.refresh_token_ttl user_id email in
      let expiry = jwt.new_numeric_date (made 0 + j.refresh_token_ttl) in
      let (d, v) =
        generated jwt j decode verify laws j.refresh_token_secret made j.refresh_token_ttl user_id
          email t h in
      elim (Bool-cases (ltb j.access_token_ttl (until (used 0) expiry))) [
        | inl more ↦
            let long = ltb→lt j.access_token_ttl (until (used 0) expiry) more in
            inl (
              long,
              live_or_expired used t j.refresh_token_secret claims expiry d
                  (key_for-refresh jwt j (used 0) expiry "HS256" claims refl long) v refl refl,
            )
        | inr few ↦
            let short : until (used 0) expiry ≤ j.access_token_ttl = ground arith in
            inr (
              short,
              validate-forged jwt j decode verify laws used t "HS256" j.access_token_secret claims d
                  (key_for-access jwt j (used 0) expiry "HS256" claims refl short) other,
            )
      ]

  -- What is known of a token that is accepted.
  unfoldable pub IsTrusted : (ℕ → ℕ) → String → Claims → Type 0
  IsTrusted clock t c =
      (alg : String) × (secret : String) × (e : ℕ) × (decode t ≡ some (hmac alg, c))
      × (verify secret t ≡ true)
      × (c.expires_at ≡ some e)
      × (clock 1 < e)
      × ((secret ≡ j.access_token_secret) × (until (clock 0) e ≤ j.access_token_ttl)
          ⊎ (secret ≡ j.refresh_token_secret) × (j.access_token_ttl < until (clock 0) e))

  -- Whatever time is left, the one secret is asked for.
  key_for-shared :
      (now expiry : ℕ) (c : Claims)
      → j.access_token_secret ≡ j.refresh_token_secret
      → c.expires_at ≡ some expiry
      → key_for jwt j now (hmac "HS256") c ≡ ok j.refresh_token_secret
  key_for-shared now expiry c shared x =
      elim (Bool-cases (ltb j.access_token_ttl (until now expiry))) [
        | inl more ↦
            key_for-refresh jwt j now expiry "HS256" c x
              (ltb→lt j.access_token_ttl (until now expiry) more)
        | inr few ↦ key_for-access jwt j now expiry "HS256" c x (ground arith) ∙ ap ok shared
      ]

  -- With a token library that keeps its laws, and with one secret for both kinds of tokens, which
  -- is how the server builds the generator, ValidateToken answers the claims of every refresh
  -- token until the refresh token itself expires, and the error of an expired token from then on.
  pub shared_secret-refresh_is_access :
      (made used : ℕ → ℕ) (user_id email t : String)
      → j.access_token_secret ≡ j.refresh_token_secret
      → generate_refresh_token jwt j made user_id email ≡ ok t
      → let claims = new_claims jwt j made j.refresh_token_ttl user_id email in
        let expiry = jwt.new_numeric_date (made 0 + j.refresh_token_ttl) in
        (validate_token jwt j used t ≡ ok claims) × (used 1 < expiry)
        ⊎ (validate_token jwt j used t ≡ err (error (auth auth_token_expired))) × (expiry ≤ used 1)
  unfolding generate_refresh_token
  shared_secret-refresh_is_access made used user_id email t shared h =
      let claims = new_claims jwt j made j.refresh_token_ttl user_id email in
      let expiry = jwt.new_numeric_date (made 0 + j.refresh_token_ttl) in
      let (d, v) =
        generated jwt j decode verify laws j.refresh_token_secret made j.refresh_token_ttl user_id
          email t h in
      live_or_expired used t j.refresh_token_secret claims expiry d
        (key_for-shared (used 0) expiry claims shared refl) v refl refl

  checked_claims-ok :
      (r : Result JwtError ParsedToken) (c : Claims)
      → checked_claims jwt j r ≡ ok c
      → (p : ParsedToken) × (r ≡ ok p) × (p.claims ≡ c)
  unfolding checked_claims
  checked_claims-ok (ok p) c h = elim (Bool-cases p.valid) [
    | inl valid ↦ (p, refl, ground arith)
    | inr invalid ↦ absurd (ground arith)
  ]
  checked_claims-ok (err jwt_panic) c h = absurd cc
  checked_claims-ok (err jwt_expired) c h = absurd cc
  checked_claims-ok (err (jwt_other m)) c h = absurd cc

  parsed-IsTrusted :
      (clock : ℕ → ℕ) (t : String) (c : Claims)
      → (method : SigningMethod) × (secret : String) × (decode t ≡ some (method, c))
        × (key_for jwt j (clock 0) method c ≡ ok secret)
        × (verify secret t ≡ true)
        × IsLive (clock 1) c
      → IsTrusted clock t c
  unfolding IsTrusted key_for
  parsed-IsTrusted clock t c (hmac alg, secret, d, k, v, l) =
      let (e, x, known) = key_for-IsKey jwt j (clock 0) (hmac alg) c secret k in
      (alg, secret, e, d, v, x, before_expiry-some (clock 1) c.expires_at e l.0 x, known)
  parsed-IsTrusted clock t c (not_hmac alg, secret, d, k, v, l) = absurd cc

  -- With a token library that keeps its laws, a token whose claims ValidateToken answers is an
  -- HMAC token with these claims, which have an expiry that has not passed, and it is signed with
  -- the access secret if the time it has left is at most that of an access token, and with the
  -- refresh secret if it is longer.
  pub validate_token-IsTrusted :
      (clock : ℕ → ℕ) (t : String) (c : Claims)
      → validate_token jwt j clock t ≡ ok c
      → IsTrusted clock t c
  unfolding validate_token
  validate_token-IsTrusted clock t c h =
      let (p, parsed, same) =
        checked_claims-ok (jwt.parse_with_claims (clock 1) t (key_for jwt j (clock 0))) c h in
      subst (IsTrusted clock t) same
        (parsed-IsTrusted clock t p.claims (laws.parse_ok (clock 1) t _ p parsed))
