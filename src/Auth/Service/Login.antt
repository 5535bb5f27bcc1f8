-- ===== src/Auth/Service/Login.antt =====
-- internal/auth/service.go: what comes of `Authenticate`.
use expense_management.Prelude.{
  ℕ, String, none, some, ◌≡◌, refl, subst, ◌⊎◌, ◌≢◌, eq_iff, arith, inl, inr, ℤ, Option-cases,
  Result, Result-cases, ok, err,
}
use expense_management.Errors.{GoError, auth, auth_invalid_credentials, auth_validation}
use expense_management.Auth.Tokens.{AuthTokens, Failure, error, TokenGeneratorApi}
use expense_management.Auth.Service.{
  LoginDto, Bcrypt, RepositoryApi, validate_login, verify_password, issue, authenticate,
}

LoginCheck : LoginDto → Type 0
LoginCheck dto =
    (dto.email ≡ "") × (validate_login dto ≡ some (auth_validation "email is required"))
    ⊎ (dto.email ≢ "")
      × (dto.password ≡ "")
      × (validate_login dto ≡ some (auth_validation "password is required"))
    ⊎ (dto.email ≢ "") × (dto.password ≢ "") × (validate_login dto ≡ none)

validate_login-LoginCheck : (dto : LoginDto) → LoginCheck dto
unfolding LoginCheck validate_login
validate_login-LoginCheck dto = ground (arith, eq_iff dto.email "", eq_iff dto.password "")

module _ {Db : Type 0} (bcrypt : Bcrypt) (generator : TokenGeneratorApi) (cost : ℤ)
    (repo : RepositoryApi Db) where
  abbrev pub run : (ℕ → ℕ → ℕ) → LoginDto → Db → Result Failure AuthTokens
  run times dto db = authenticate bcrypt generator cost repo times dto db

  authenticate-invalid :
      (times : ℕ → ℕ → ℕ) (dto : LoginDto) (db : Db) (e : GoError)
      → validate_login dto ≡ some e
      → run times dto db ≡ err (error e)
  unfolding authenticate
  authenticate-invalid times dto db e h = rw h refl

  authenticate-unknown :
      (times : ℕ → ℕ → ℕ) (dto : LoginDto) (db : Db) (e : GoError)
      → validate_login dto ≡ none
      → repo.get_password_for_username dto.email db ≡ err e
      → run times dto db ≡ err (error (auth auth_invalid_credentials))
  unfolding authenticate
  authenticate-unknown times dto db e h u = rw (h, u) refl

  authenticate-wrong :
      (times : ℕ → ℕ → ℕ) (dto : LoginDto) (db : Db) (e : GoError) (hash user_id : String)
      → validate_login dto ≡ none
      → repo.get_password_for_username dto.email db ≡ ok (hash, user_id)
      → verify_password bcrypt hash dto.password ≡ some e
      → run times dto db ≡ err (error (auth auth_invalid_credentials))
  unfolding authenticate
  authenticate-wrong times dto db e hash user_id h u w = rw (h, u, w) refl

  pub authenticate-right :
      (times : ℕ → ℕ → ℕ) (dto : LoginDto) (db : Db) (hash user_id : String)
      → validate_login dto ≡ none
      → repo.get_password_for_username dto.email db ≡ ok (hash, user_id)
      → verify_password bcrypt hash dto.password ≡ none
      → run times dto db ≡ issue generator (times 0) (times 1) user_id dto.email
  unfolding authenticate
  authenticate-right times dto db hash user_id h u w = rw (h, u, w) refl

  -- Why a name and a password are refused.
  abbrev pub IsRefused : LoginDto → Db → Type 0
  IsRefused dto db =
      ((e : GoError) × (repo.get_password_for_username dto.email db ≡ err e))
      ⊎ ((hash : String) × (user_id : String) × (e : GoError) × (repo.get_password_for_username
              dto.email db
            ≡ ok (hash, user_id))
          × (verify_password bcrypt hash dto.password ≡ some e))

  abbrev pub IsGranted : (ℕ → ℕ → ℕ) → LoginDto → Db → Result Failure AuthTokens → Type 0
  IsGranted times dto db r =
      (hash : String) × (user_id : String) × (repo.get_password_for_username dto.email db
        ≡ ok (hash, user_id))
      × (verify_password bcrypt hash dto.password ≡ none)
      × (r ≡ issue generator (times 0) (times 1) user_id dto.email)

  abbrev pub LoginOutcome : (ℕ → ℕ → ℕ) → LoginDto → Db → Result Failure AuthTokens → Type 0
  LoginOutcome times dto db r =
      (dto.email ≡ "") × (r ≡ err (error (auth_validation "email is required")))
      ⊎ (dto.email ≢ "")
        × (dto.password ≡ "")
        × (r ≡ err (error (auth_validation "password is required")))
      ⊎ (dto.email ≢ "")
        × (dto.password ≢ "")
        × (IsRefused dto db × (r ≡ err (error (auth auth_invalid_credentials)))
            ⊎ IsGranted times dto db r)

  credentials_outcome :
      (times : ℕ → ℕ → ℕ) (dto : LoginDto) (db : Db)
      → validate_login dto ≡ none
      → IsRefused dto db × (run times dto db ≡ err (error (auth auth_invalid_credentials)))
        ⊎ IsGranted times dto db (run times dto db)
  credentials_outcome times dto db valid =
      elim (Result-cases (repo.get_password_for_username dto.email db)) [
        | inr (e, u) ↦ inl (inl (e, u), authenticate-unknown times dto db e valid u)
        | inl ((hash, user_id), u) ↦
            elim (Option-cases (verify_password bcrypt hash dto.password)) [
              | inl w ↦
                  inr (hash, user_id, u, w, authenticate-right times dto db hash user_id valid u w)
              | inr (e, w) ↦ inl (
                inr (hash, user_id, e, u, w),
                authenticate-wrong times dto db e hash user_id valid u w,
              )
            ]
      ]

  -- A login ends in one of four ways: an empty email and then an empty password answer their
  -- validation errors; any error of the repository for the email, and any password that does not
  -- match the stored hash, answer the one error of invalid credentials, so that the answer does
  -- not tell which emails exist; otherwise the answer is that of issuing the two tokens for the
  -- stored id and the email.
  pub authenticate_outcome :
      (times : ℕ → ℕ → ℕ) (dto : LoginDto) (db : Db) → LoginOutcome times dto db (run times dto db)
  unfolding LoginCheck
  authenticate_outcome times dto db = elim (validate_login-LoginCheck dto) [
    | inl (e, v) ↦ inl (e, authenticate-invalid times dto db _ v)
    | inr (inl (e, p, v)) ↦ inr (inl (e, p, authenticate-invalid times dto db _ v))
    | inr (inr (e, p, v)) ↦ inr (inr (e, p, credentials_outcome times dto db v))
  ]

  pub authenticate-ok :
      (times : ℕ → ℕ → ℕ) (dto : LoginDto) (db : Db) (tokens : AuthTokens)
      → run times dto db ≡ ok tokens
      → IsGranted times dto db (ok tokens)
  authenticate-ok times dto db tokens h = elim (authenticate_outcome times dto db) [
    | inl (e, r) ↦ absurd cc
    | inr (inl (e, p, r)) ↦ absurd cc
    | inr (inr (e, p, inl (refused, r))) ↦ absurd cc
    | inr (inr (e, p, inr granted)) ↦ subst (IsGranted times dto db) h granted
  ]
