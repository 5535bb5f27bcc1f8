-- ===== src/Auth/Tokens/Laws.antt =====
-- internal/auth/service.go: the key that `ValidateToken` takes, and what comes of a token by its
-- signature and its claims.
use expense_management.Prelude.{
  ℕ, ◌+◌, ◌<◌, ◌≤◌, String, Option, none, some, Bool, true, false, ◌≡◌, refl, ap, ◌⊎◌, inl, inr,
  ltb, ltb→lt, Bool-cases, Result, ok, err, arith,
}
use expense_management.Errors.{GoError, auth, auth_invalid_token, auth_token_expired}
use expense_management.Auth.Tokens.{
  Claims, Jwt, IsJwt, IsLive, SigningMethod, hmac, not_hmac, JwtTokenGenerator, error, panic,
  new_claims, validate_token, key_for, checked_claims, until, signed_string, key_until,
}

pub until_le : (now t b : ℕ) → t ≤ now + b → until now t ≤ b
until_le now t b h = ground arith

module _ (jwt : Jwt) (j : JwtTokenGenerator) where
  -- The secret that is asked for, by the time that the token has left.
  pub key_for-access :
      (now e : ℕ) (alg : String) (c : Claims)
      → c.expires_at ≡ some e
      → until now e ≤ j.access_token_ttl
      → key_for jwt j now (hmac alg) c ≡ ok j.access_token_secret
  unfolding key_for
  key_for-access now e alg c h few = rw h (ground (arith, few))

  pub key_for-refresh :
      (now e : ℕ) (alg : String) (c : Claims)
      → c.expires_at ≡ some e
      → j.access_token_ttl < until now e
      → key_for jwt j now (hmac alg) c ≡ ok j.refresh_token_secret
  unfolding key_for
  key_for-refresh now e alg c h more = rw h (ground (arith, more))

  key_for-no_expiry :
      (now : ℕ) (alg : String) (c : Claims)
      → c.expires_at ≡ none
      → key_for jwt j now (hmac alg) c ≡ err panic
  unfolding key_for
  key_for-no_expiry now alg c h = rw h refl

  abbrev pub IsKey : ℕ → Option ℕ → String → Type 0
  IsKey now expiry secret =
      (e : ℕ) × (expiry ≡ some e)
      × ((secret ≡ j.access_token_secret) × (until now e ≤ j.access_token_ttl)
          ⊎ (secret ≡ j.refresh_token_secret) × (j.access_token_ttl < until now e))

  key_until-IsKey :
      (now : ℕ) (expiry : Option ℕ) (secret : String)
      → key_until jwt j now expiry ≡ ok secret
      → IsKey now expiry secret
  key_until-IsKey now none secret h = absurd cc
  key_until-IsKey now (some e) secret h = (
    e,
    refl,
    elim (Bool-cases (ltb j.access_token_ttl (until now e))) [
      | inl more ↦ inr (ground arith, ltb→lt j.access_token_ttl (until now e) more)
      | inr few ↦ inl (ground arith, ground arith)
    ],
  )

  -- Each of the two secrets, and only for HMAC.
  pub key_for-IsKey :
      (now : ℕ) (m : SigningMethod) (c : Claims) (secret : String)
      → key_for jwt j now m c ≡ ok secret
      → IsKey now c.expires_at secret
  unfolding key_for
  key_for-IsKey now (hmac alg) c secret h = key_until-IsKey now c.expires_at secret h
  key_for-IsKey now (not_hmac alg) c secret h = absurd cc

  signed_string-ok :
      (r : Result GoError String) (t : String) → signed_string jwt j r ≡ ok t → r ≡ ok t
  signed_string-ok (ok s) t h = ap ok (cc h)
  signed_string-ok (err e) t h = absurd cc

module _ (jwt : Jwt) (j : JwtTokenGenerator) (decode : String → Option (SigningMethod × Claims))
    (verify : String → String → Bool) (laws : IsJwt jwt decode verify) where
  pub generated :
      (secret : String) (clock : ℕ → ℕ) (ttl : ℕ) (user_id email t : String)
      → signed_string jwt j (jwt.sign secret (new_claims jwt j clock ttl user_id email)) ≡ ok t
      → (decode t ≡ some (hmac "HS256", new_claims jwt j clock ttl user_id email))
        × (verify secret t ≡ true)
  generated secret clock ttl user_id email t h =
      let claims = new_claims jwt j clock ttl user_id email in
      let signed = signed_string-ok jwt j (jwt.sign secret claims) t h in
      (
        laws.sign_decode secret claims t signed
            (laws.numeric_date_idem (clock 0 + ttl), tt, laws.numeric_date_idem (clock 1)),
        laws.sign_verify secret claims t signed,
      )

  pub validate-accepts :
      (clock : ℕ → ℕ) (t alg secret : String) (c : Claims)
      → decode t ≡ some (hmac alg, c)
      → key_for jwt j (clock 0) (hmac alg) c ≡ ok secret
      → verify secret t ≡ true
      → IsLive (clock 1) c
      → validate_token jwt j clock t ≡ ok c
  unfolding validate_token checked_claims
  validate-accepts clock t alg secret c d k v l =
      rw (laws.parse_accepts (clock 1) t _ (hmac alg) c secret d k v l) refl

  pub validate-expired :
      (clock : ℕ → ℕ) (t alg secret : String) (c : Claims) (e : ℕ)
      → decode t ≡ some (hmac alg, c)
      → key_for jwt j (clock 0) (hmac alg) c ≡ ok secret
      → verify secret t ≡ true
      → c.expires_at ≡ some e
      → e ≤ clock 1
      → validate_token jwt j clock t ≡ err (error (auth auth_token_expired))
  unfolding validate_token checked_claims
  validate-expired clock t alg secret c e d k v x l =
      rw (laws.parse_expired (clock 1) t _ (hmac alg) c secret e d k v x l) refl

  pub validate-forged :
      (clock : ℕ → ℕ) (t alg secret : String) (c : Claims)
      → decode t ≡ some (hmac alg, c)
      → key_for jwt j (clock 0) (hmac alg) c ≡ ok secret
      → verify secret t ≡ false
      → validate_token jwt j clock t ≡ err (error (auth auth_invalid_token))
  unfolding validate_token checked_claims
  validate-forged clock t alg secret c d k v =
      rw ((laws.parse_bad_signature (clock 1) t _ (hmac alg) c secret d k v).1) refl

  -- A token with no expiry.
  pub validate_token-panics :
      (clock : ℕ → ℕ) (t alg : String) (c : Claims)
      → decode t ≡ some (hmac alg, c)
      → c.expires_at ≡ none
      → validate_token jwt j clock t ≡ err panic
  unfolding validate_token checked_claims
  validate_token-panics clock t alg c d x =
      rw (laws.parse_panic (clock 1) t _ (hmac alg) c d (key_for-no_expiry jwt j (clock 0) alg c x))
        refl
