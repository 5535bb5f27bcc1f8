-- ===== src/Config/Laws.antt =====
-- internal/config.go: which configurations are accepted.
use expense_management.Prelude.{
  String, List, [], ◌∷◌, ◌++◌, Option, none, some, Bool, true, false, ◌≡◌, ◌≢◌, ◌↔◌, ◌⊎◌, inl, inr,
  refl, ℤ, pos, leb_ℤ, ltb_ℤ, ◌≤ℤ◌, ◌<ℤ◌, str_eq, ◌<>◌, contains, eq_iff, arith, Bool-cases,
}
use expense_management.Errors.{GoError}
use expense_management.Config.{Config, DatabaseConfig, PaymentConfig, get_env, build_dsn_from_env}
use expense_management.Config.Origins.{IsServer, validate_server_iff}
use expense_management.Config.Validation.{
  validate_config, validate_server, validate_database, validate_payment_config, source_errors,
  or_nil, complain, named,
}

or_nil_iff : (es : List String) → (or_nil es ≡ none) ↔ (es ≡ [])
or_nil_iff [] = (λ h. refl, λ h. refl)
or_nil_iff (e ∷ es) = (λ h. absurd cc, λ h. absurd cc)

append_nil_iff : (xs ys : List String) → (xs ++ ys ≡ []) ↔ ((xs ≡ []) × (ys ≡ []))
append_nil_iff [] ys = (λ h. (refl, h), λ (_, h). h)
append_nil_iff (x ∷ xs) ys = (λ h. absurd cc, λ (h, _). absurd cc)

complain_iff : (b : Bool) (e : String) → (complain b e ≡ []) ↔ (b ≡ false)
complain_iff true e = (λ h. absurd cc, λ h. absurd cc)
complain_iff false e = (λ h. refl, λ h. refl)

named_iff : (prefix : String) (o : Option GoError) → (named prefix o ≡ []) ↔ (o ≡ none)
named_iff prefix none = (λ h. refl, λ h. refl)
named_iff prefix (some e) = (λ h. absurd cc, λ h. absurd cc)

-- How the conditions of a list of errors come together.
both :
    {P Q : Type 0} (xs ys : List String) → (xs ≡ []) ↔ P → (ys ≡ []) ↔ Q → (xs ++ ys ≡ []) ↔ (P × Q)
both xs ys (p, p') (q, q') = (
  λ h. let (x, y) = (append_nil_iff xs ys).0 h in (p x, q y),
  λ (x, y). (append_nil_iff xs ys).1 (p' x, q' y),
)

passes : {P : Type 0} (es : List String) → (es ≡ []) ↔ P → (or_nil es ≡ none) ↔ P
passes es (p, p') = (λ h. p ((or_nil_iff es).0 h), λ x. (or_nil_iff es).1 (p' x))

unless_true : {P : Type 0} (b : Bool) (e : String) → (b ≡ false) ↔ P → (complain b e ≡ []) ↔ P
unless_true b e (p, p') = (λ h. p ((complain_iff b e).0 h), λ x. (complain_iff b e).1 (p' x))

if_valid :
    {P : Type 0} (prefix : String) (o : Option GoError) → (o ≡ none) ↔ P → (named prefix o ≡ []) ↔ P
if_valid prefix o (p, p') = (λ h. p ((named_iff prefix o).0 h), λ x. (named_iff prefix o).1 (p' x))

module _ (getenv : String → String) (source : String) where
  -- A URI, or a list of parameters with a user, a password and a database.
  abbrev pub IsSource : Type 0
  IsSource =
      (source ≢ "")
      × ((contains source "://" ≡ true)
          ⊎ (contains source "user=" ≡ true) × (contains source "password=" ≡ true))
      × ((contains source "dbname=" ≡ true) ⊎ (contains source "/" ≡ true))
      × ((contains source "host=localhost" ≡ false)
          ⊎ (getenv "DOCKER_ENV" ≢ "true") × (getenv "DB_SOURCE" ≡ ""))

  source_errors_iff : (source_errors getenv source ≡ []) ↔ IsSource
  unfolding source_errors
  source_errors_iff =
      ground (
        arith,
        eq_iff source "",
        eq_iff (getenv "DOCKER_ENV") "true",
        eq_iff (getenv "DB_SOURCE") "",
      )

module _ (getenv : String → String) (url_parse : String → Option GoError) where
  abbrev pub IsDatabase : DatabaseConfig → Type 0
  IsDatabase c =
      IsSource getenv c.source
      × ((pos 0 <ℤ c.max_idle_conns)
          × ((pos 0 <ℤ c.max_open_conns) × (c.max_idle_conns ≤ℤ c.max_open_conns)))

  leb_ℤ-false : (a b : ℤ) → (leb_ℤ a b ≡ false) ↔ (b <ℤ a)
  leb_ℤ-false a b = ground arith

  ltb_ℤ-false : (a b : ℤ) → (ltb_ℤ a b ≡ false) ↔ (b ≤ℤ a)
  ltb_ℤ-false a b = ground arith

  validate_database_iff : (c : DatabaseConfig) → (validate_database getenv c ≡ none) ↔ IsDatabase c
  unfolding validate_database
  validate_database_iff c = passes _ (
      both (source_errors getenv c.source) _ (source_errors_iff getenv c.source) (
        both _ _
          (unless_true (leb_ℤ c.max_idle_conns (pos 0)) "max_idle_conns must be positive"
            (leb_ℤ-false c.max_idle_conns (pos 0)))
          (both _ _
            (unless_true (leb_ℤ c.max_open_conns (pos 0)) "max_open_conns must be positive"
              (leb_ℤ-false c.max_open_conns (pos 0)))
            (unless_true (ltb_ℤ c.max_open_conns c.max_idle_conns)
              "max_idle_conns cannot be greater than max_open_conns"
              (ltb_ℤ-false c.max_open_conns c.max_idle_conns)))))

  payment_iff : (c : PaymentConfig) → (validate_payment_config c ≡ none) ↔ (c.mock_api_url ≢ "")
  unfolding validate_payment_config
  payment_iff c = ground (arith, eq_iff c.mock_api_url "")

  -- A configuration is accepted exactly when the allowed origins are empty or each of them, less
  -- the space around it, is "*" or parses as a URL, the read timeout is not below that of the
  -- header, the database's source is not empty, contains "://", or else "user=" and "password=",
  -- and contains "dbname=" or "/", and does not contain the text "host=localhost" when DOCKER_ENV
  -- is "true" or DB_SOURCE is set, the limits of connections are positive and in order, and the
  -- address of the payment API is not empty.
  pub validate_config_iff :
      (c : Config)
      → (validate_config getenv url_parse c ≡ none)
        ↔ (IsServer url_parse c.server × (IsDatabase c.database × (c.payment.mock_api_url ≢ "")))
  unfolding validate_config
  validate_config_iff c = passes _ (
      both _ _
        (if_valid "server config" (validate_server url_parse c.server)
          (validate_server_iff url_parse c.server))
        (both _ _
          (if_valid "database config" (validate_database getenv c.database)
            (validate_database_iff c.database))
          (if_valid "payment config" (validate_payment_config c.payment) (payment_iff c.payment))))

module _ (getenv : String → String) where
  abbrev IsMissing : Type 0
  IsMissing = (getenv "DB_HOST" ≡ "") ⊎ (getenv "DB_PORT" ≡ "") ⊎ (getenv "DB_NAME" ≡ "")

  abbrev DsnOutcome : String → Type 0
  DsnOutcome dsn =
      (getenv "DB_SOURCE" ≢ "") × (dsn ≡ getenv "DB_SOURCE")
      ⊎ (getenv "DB_SOURCE" ≡ "") × IsMissing × (dsn ≡ "")
      ⊎ (getenv "DB_SOURCE" ≡ "")
        × (getenv "DB_HOST" ≢ "")
        × (getenv "DB_PORT" ≢ "")
        × (getenv "DB_NAME" ≢ "")
        × (dsn
            ≡ "postgresql://"
              <> get_env getenv "DB_USER" "="
              <> ":"
              <> getenv "DB_PASSWORD"
              <> "@"
              <> getenv "DB_HOST"
              <> ":"
              <> getenv "DB_PORT"
              <> "/"
              <> getenv "DB_NAME"
              <> "?sslmode="
              <> get_env getenv "DB_SSLMODE" "disable")

  get_env-unset : (key : String) → get_env getenv key "" ≡ getenv key
  unfolding get_env
  get_env-unset key = ground (arith, eq_iff (getenv key) "")

  user_present : str_eq (get_env getenv "DB_USER" "=") "" ≡ false
  unfolding get_env
  user_present = elim (Bool-cases (str_eq (getenv "DB_USER") "")) [
    | inl unset ↦ rw unset refl
    | inr set ↦ rw set set
  ]

  -- The three ways to a source. A missing user is not noticed: its default is "=".
  pub build_dsn_from_env_outcome : DsnOutcome (build_dsn_from_env getenv)
  unfolding build_dsn_from_env
  build_dsn_from_env_outcome =
      rw
        (
          get_env-unset "DB_SOURCE",
          get_env-unset "DB_HOST",
          get_env-unset "DB_PORT",
          get_env-unset "DB_NAME",
          get_env-unset "DB_PASSWORD",
          user_present,
        )
        (ground (
          arith,
          eq_iff (getenv "DB_SOURCE") "",
          eq_iff (getenv "DB_HOST") "",
          eq_iff (getenv "DB_PORT") "",
          eq_iff (getenv "DB_NAME") "",
        ))
