-- ===== src/Config/Validation.antt =====
-- internal/config.go: the checks of the configuration.
use expense_management.Prelude.{
  String, List, [], ◌∷◌, ◌++◌, Option, none, some, Bool, true, false, not, ◌&&◌, ◌||◌, ◌<>◌, pos,
  leb_ℤ, ltb_ℤ, str_eq, if◌then◌else◌, trim_space, contains, split,
}
use expense_management.Errors.{GoError, msg, wrap, error_text}
use expense_management.Config.{Config, ServerConfig, DatabaseConfig, PaymentConfig}

-- The loop of `ServerConfig.Validate`.
unfoldable pub check_origins : (String → Option GoError) → List String → Option GoError
unfolding trim_space
check_origins url_parse [] = none
check_origins url_parse (o ∷ os) =
    let origin = trim_space o in
    let rest = check_origins url_parse os in
    if str_eq origin "*" then rest else elim (url_parse origin) [
      | none ↦ rest
      | some e ↦ some (wrap ("invalid allowed origin " <> origin) e)
    ]

abbrev pub check_timeouts : ServerConfig → Option GoError → Option GoError
check_timeouts c (some e) = some e
check_timeouts c none =
    if ltb_ℤ c.read_timeout c.read_header_timeout
    then some (msg "read_timeout must be >= read_header_timeout")
    else none

unfoldable pub validate_server : (String → Option GoError) → ServerConfig → Option GoError
unfolding check_origins split
validate_server url_parse c = check_timeouts c (
    if str_eq c.allowed_origins ""
    then none
    else check_origins url_parse (split c.allowed_origins 44))

-- `strings.Join(errs, "; ")`
abbrev join : List String → String
join [] = ""
join (e ∷ []) = e
join (e ∷ es) = e <> "; " <> join es

abbrev pub or_nil : List String → Option GoError
or_nil [] = none
or_nil (e ∷ es) = some (msg (join (e ∷ es)))

-- `if condition { errs = append(errs, …) }`
abbrev pub complain : Bool → String → List String
complain true e = e ∷ []
complain false e = []

unfoldable pub source_errors : (String → String) → String → List String
source_errors getenv source =
    if str_eq source ""
    then "database source is required" ∷ []
    else complain (not (contains source "user=") && not (contains source "://"))
        "database source must include user parameter"
      ++ complain (not (contains source "dbname=") && not (contains source "/"))
          "database source must include database name"
      ++ complain
          ((str_eq (getenv "DOCKER_ENV") "true" || not (str_eq (getenv "DB_SOURCE") ""))
            && contains source "host=localhost")
          "database host should not be localhost in Docker environment, use service name"
      ++ complain (not (contains source "password=") && not (contains source "://"))
          "database source should include password for authentication"

unfoldable pub validate_database : (String → String) → DatabaseConfig → Option GoError
unfolding source_errors
validate_database getenv c = or_nil (
    source_errors getenv c.source
    ++ (complain (leb_ℤ c.max_idle_conns (pos 0)) "max_idle_conns must be positive"
        ++ (complain (leb_ℤ c.max_open_conns (pos 0)) "max_open_conns must be positive"
            ++ complain (ltb_ℤ c.max_open_conns c.max_idle_conns)
                "max_idle_conns cannot be greater than max_open_conns")))

unfoldable pub get_dsn : DatabaseConfig → String
get_dsn c = c.source

unfoldable pub validate_payment_config : PaymentConfig → Option GoError
validate_payment_config c =
    if str_eq c.mock_api_url "" then some (msg "mock_api_url is required") else none

abbrev pub named : String → Option GoError → List String
named prefix none = []
named prefix (some e) = (prefix <> ": " <> error_text e) ∷ []

unfoldable pub validate_config :
    (String → String) → (String → Option GoError) → Config → Option GoError
unfolding error_text validate_server validate_database validate_payment_config
validate_config getenv url_parse c = or_nil (
    named "server config" (validate_server url_parse c.server)
    ++ (named "database config" (validate_database getenv c.database)
        ++ named "payment config" (validate_payment_config c.payment)))
