-- ===== src/Transport.antt =====
-- internal/transport/base_handler.go and internal/context.go: what the HTTP handlers share.
--
-- A handler is a function from the request's parts to a `Response`. The user that the middleware put
-- into the request's context is an `Option`. Writing to the socket and logging are left out.
pub mod Header
pub mod Logging
pub mod Middleware
use expense_management.Prelude.{
  ℕ, ℤ, String, List, Option, none, some, ◌||◌, str_eq, if◌then◌else◌, starts_with, len,
}
use Prim.Native.String.{slice}
use expense_management.Errors.{
  GoError, AppError, global, expense_not_found, is_app_error, status_code_of, error_text,
}

-- `internal.User`, and `auth.User`, which has the same fields.
pub record User : Type 0 where
  pub id : ℤ
  pub email : String
  pub permissions : List String

-- What is written: the text of `http.Error`, the `code`/`message` object of `WriteError`, the object
-- of `HandleError`, the `error` object of the webhook, a value as JSON, or nothing.
pub data Body (A : Type 0) : Type 0 where
  text : String → Body A
  error_object : ℕ → String → Body A
  app_error_object : AppError → Body A
  error_message : String → Body A
  -- The object that the recovery from a panic writes, without the panic's value.
  panic_object : String → Body A
  json : A → Body A
  empty : Body A

pub record Response (A : Type 0) : Type 0 where
  pub status : ℕ
  pub body : Body A

-- What comes of a request: what is written, or a panic before anything is.
pub data Served (A : Type 0) : Type 0 where
  served : Response A → Served A
  panicked : Served A

module _ {A : Type 0} where
  unfoldable pub write_json : ℕ → A → Response A
  write_json status value = record { status = status; body = json value }

  unfoldable pub write_error : ℕ → String → Response A
  write_error status message = record { status = status; body = error_object status message }

  -- `http.Error`
  unfoldable pub http_error : String → ℕ → Response A
  http_error message status = record { status = status; body = text message }

  app_or_internal : Option AppError → Response A
  unfolding write_error
  app_or_internal (some e) = record { status = status_code_of e; body = app_error_object e }
  app_or_internal none = write_error 500 "Internal server error"

  unfoldable pub handle_error : GoError → Response A
  unfolding app_or_internal is_app_error
  handle_error e = app_or_internal (is_app_error e)

  unfoldable pub handle_service_error : GoError → Response A
  unfolding handle_error error_text
  handle_service_error e =
      if str_eq (error_text e) "record not found"
        || str_eq (error_text e) "sql: no rows in result set"
      then handle_error (global expense_not_found)
      else handle_error e

-- `authHeader[7:]` after the prefix "Bearer "; the empty text where there is none.
unfoldable pub extract_token_from_header : String → String
extract_token_from_header header =
    if starts_with header "Bearer " then slice header 7 (len header) else ""
