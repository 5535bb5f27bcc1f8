-- ===== src/Config.antt =====
-- internal/config.go: the configuration from the environment.
--
-- The environment is a function, "" for a variable that is not set. `time.ParseDuration` and
-- `url.Parse` are parameters. Durations are nanoseconds. The sampling rate, a constant, is left out.
pub mod Validation
pub mod Origins
pub mod Laws
use expense_management.Prelude.{
  ℕ, ◌*◌, String, List, [], ◌∷◌, ◌++◌, Option, none, some, Bool, true, false, not, ◌&&◌, ◌||◌, ◌<>◌,
  ℤ, pos, leb_ℤ, ltb_ℤ, str_eq, if◌then◌else◌, parse_int, trim_space, contains, split,
}
use expense_management.Errors.{GoError, msg, wrap, error_text}

pub record ServerConfig : Type 0 where
  pub port : ℤ
  pub base_url : String
  pub allowed_origins : String
  pub read_header_timeout : ℤ
  pub read_timeout : ℤ
  pub idle_timeout : ℤ
  pub write_timeout : ℤ

pub record DatabaseConfig : Type 0 where
  pub max_open_conns : ℤ
  pub max_idle_conns : ℤ
  pub conn_max_lifetime : ℤ
  pub conn_max_idle_time : ℤ
  pub source : String

pub record SecurityConfig : Type 0 where
  pub access_token_duration : ℤ
  pub refresh_token_duration : ℤ
  pub bcrypt_cost : ℤ
  pub session_secret : String

pub record PaymentConfig : Type 0 where
  pub mock_api_url : String
  pub api_key : String
  pub payment_timeout : ℤ
  pub webhook_url : String
  pub max_workers : ℤ
  pub job_queue_size : ℤ
  pub worker_pool_size : ℤ

pub record MetricsConfig : Type 0 where
  pub enabled : Bool
  pub path : String

pub record TracingConfig : Type 0 where
  pub enabled : Bool
  pub service_name : String
  pub jaeger_url : String

pub record LoggingConfig : Type 0 where
  pub level : String
  pub format : String

pub record ObservabilityConfig : Type 0 where
  pub metrics : MetricsConfig
  pub tracing : TracingConfig
  pub logging : LoggingConfig

pub record Config : Type 0 where
  pub server : ServerConfig
  pub database : DatabaseConfig
  pub security : SecurityConfig
  pub observability : ObservabilityConfig
  pub payment : PaymentConfig

abbrev or_default : {A : Type 0} → A → Option A → A
or_default d none = d
or_default d (some a) = a

abbrev second : ℕ → ℤ
second n = pos (n * 1000000000)

module _ (getenv : String → String) where
  unfoldable pub get_env : String → String → String
  get_env key default_val = if str_eq (getenv key) "" then default_val else getenv key

  unfoldable pub get_env_as_int : String → ℤ → ℤ
  unfolding parse_int
  get_env_as_int key default_val =
      if str_eq (getenv key) ""
      then default_val
      else or_default default_val (parse_int (getenv key))

  unfoldable pub build_dsn_from_env : String
  unfolding get_env
  build_dsn_from_env =
      let db_source = get_env "DB_SOURCE" "" in
      let host = get_env "DB_HOST" "" in
      let port = get_env "DB_PORT" "" in
      let user = get_env "DB_USER" "=" in
      let password = get_env "DB_PASSWORD" "" in
      let dbname = get_env "DB_NAME" "" in
      let sslmode = get_env "DB_SSLMODE" "disable" in
      if not (str_eq db_source "")
      then db_source
      else if str_eq host "" || str_eq port "" || str_eq user "" || str_eq dbname ""
      then ""
      else "postgresql://" <> user <> ":" <> password <> "@" <> host <> ":" <> port <> "/" <> dbname
        <> "?sslmode=" <> sslmode

  module _ (parse_duration : String → Option ℤ) where
    unfoldable pub get_env_as_duration : String → ℤ → ℤ
    get_env_as_duration key default_val =
        if str_eq (getenv key) ""
        then default_val
        else or_default default_val (parse_duration (getenv key))

    unfoldable pub load_config_from_env : Config
    unfolding get_env get_env_as_int get_env_as_duration build_dsn_from_env
    load_config_from_env = record {
      server = record {
        port = get_env_as_int "APP_PORT" (pos 8080);
        base_url = get_env "APP_BASE_URL" "http://localhost:8080";
        allowed_origins = get_env "CORS_ALLOWED_ORIGINS" "*";
        read_header_timeout = get_env_as_duration "SERVER_READ_HEADER_TIMEOUT" (second 5);
        read_timeout = get_env_as_duration "SERVER_READ_TIMEOUT" (second 10);
        idle_timeout = get_env_as_duration "SERVER_IDLE_TIMEOUT" (second 60);
        write_timeout = get_env_as_duration "SERVER_WRITE_TIMEOUT" (second 10);
      };
      database = record {
        max_open_conns = get_env_as_int "DB_MAX_OPEN_CONNS" (pos 10);
        max_idle_conns = get_env_as_int "DB_MAX_IDLE_CONNS" (pos 5);
        conn_max_lifetime = get_env_as_duration "DB_CONN_MAX_LIFETIME" (second 3600);
        conn_max_idle_time = get_env_as_duration "DB_CONN_MAX_IDLE_TIME" (second 1800);
        source = build_dsn_from_env;
      };
      security = record {
        access_token_duration = get_env_as_duration "JWT_EXPIRY" (second 86400);
        refresh_token_duration = get_env_as_duration "JWT_REFRESH_EXPIRY" (second 604800);
        bcrypt_cost = get_env_as_int "BCRYPT_COST" (pos 12);
        session_secret = get_env "JWT_SECRET" "your-super-secret-jwt-key-change-in-production";
      };
      observability = record {
        metrics = record {
          enabled = str_eq (get_env "METRICS_ENABLED" "false") "true";
          path = get_env "METRICS_PATH" "/metrics";
        };
        tracing = record {
          enabled = str_eq (get_env "TRACING_ENABLED" "false") "true";
          service_name = get_env "TRACING_SERVICE_NAME" "expense-management";
          jaeger_url = get_env "JAEGER_URL" "";
        };
        logging = record {
          level = get_env "LOG_LEVEL" "info";
          format = get_env "LOG_FORMAT" "json";
        };
      };
      payment = record {
        mock_api_url =
            get_env "PAYMENT_MOCK_API_URL"
              "https://1620e98f-7759-431c-a2aa-f449d591150b.mock.pstmn.io";
        api_key = get_env "PAYMENT_API_KEY" "mock-postman-api-key";
        payment_timeout = get_env_as_duration "PAYMENT_TIMEOUT" (second 15);
        webhook_url =
            get_env "PAYMENT_WEBHOOK_URL" "http://localhost:8080/webhooks/payment/callback";
        max_workers = get_env_as_int "PAYMENT_MAX_WORKERS" (pos 10);
        job_queue_size = get_env_as_int "PAYMENT_JOB_QUEUE_SIZE" (pos 100);
        worker_pool_size = get_env_as_int "PAYMENT_WORKER_POOL_SIZE" (pos 10);
      };
    }
