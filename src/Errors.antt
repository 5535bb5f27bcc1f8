-- ===== src/Errors.antt =====
-- internal/errors.go: the application's errors, and Go's `error` values as the code builds them.
--
-- An `error` is a pointer to one of the package's variables (`global`: comparing by `==` compares
-- pointers), an `*AppError` built on the spot (`app`), the text of `errors.New` or of `fmt.Errorf`
-- (`msg`), or a `%w` wrap of another error (`wrap`). `record_not_found` and `database` are what the
-- database's library returns. `auth` and `auth_validation` are the errors of internal/auth.
use expense_management.Prelude.{ℕ, String, List, [], ◌∷◌, Option, none, some, ◌<>◌}

pub data ErrorType : Type 0 where
  validation not_found unauthorized forbidden conflict internal external : ErrorType

pub data ErrorCode : Type 0 where
  validation_failed invalid_amount invalid_description invalid_category invalid_date : ErrorCode
  amount_too_low amount_too_high : ErrorCode
  code_expense_not_found code_unauthorized_access code_invalid_expense_status : ErrorCode
  code_cannot_modify_expense : ErrorCode
  code_invalid_credentials code_user_inactive code_invalid_token code_token_expired : ErrorCode
  payment_failed payment_retry_failed internal_error : ErrorCode

-- The package's variables.
pub data Global : Type 0 where
  expense_not_found unauthorized_access invalid_expense_status cannot_modify_expense : Global
  invalid_credentials user_inactive invalid_token token_expired : Global

-- The variables of the same names in internal/auth, which are `errors.New`.
pub data AuthGlobal : Type 0 where
  auth_invalid_credentials auth_invalid_token auth_token_expired auth_user_inactive : AuthGlobal

pub record ValidationError : Type 0 where
  pub field : String
  pub message : String
  pub code : ErrorCode

-- `Details` is nil or a `ValidationErrors` wherever the code sets it.
pub data Details : Type 0 where
  no_details : Details
  validation_errors : List ValidationError → Details

mutual
  pub data GoError : Type 0 where
    global : Global → GoError
    app : AppError → GoError
    msg : String → GoError
    wrap : String → GoError → GoError
    record_not_found : GoError
    database : String → GoError
    auth : AuthGlobal → GoError
    auth_validation : String → GoError

  -- Type, Code, Message, Details, StatusCode and Cause, in this order.
  pub data AppError : Type 0 where
    app_error : ErrorType → ErrorCode → String → Details → ℕ → Cause → AppError

  pub data Cause : Type 0 where
    no_cause : Cause
    caused_by : GoError → Cause

abbrev pub code_of : AppError → ErrorCode
code_of (app_error t c m d s cause) = c

abbrev pub message_of : AppError → String
message_of (app_error t c m d s cause) = m

abbrev pub details_of : AppError → Details
details_of (app_error t c m d s cause) = d

abbrev pub status_code_of : AppError → ℕ
status_code_of (app_error t c m d s cause) = s

unfoldable pub with_cause : AppError → GoError → AppError
with_cause (app_error t c m d s cause) e = app_error t c m d s (caused_by e)

unfoldable pub with_details : AppError → List ValidationError → AppError
with_details (app_error t c m d s cause) es = app_error t c m (validation_errors es) s cause

unfoldable pub new_validation_error : String → ErrorCode → AppError
new_validation_error message code = app_error validation code message no_details 400 no_cause

unfoldable pub new_validation_field_error : String → String → ErrorCode → AppError
new_validation_field_error field message code =
    app_error validation validation_failed "Validation failed"
      (validation_errors (record { field = field; message = message; code = code } ∷ [])) 400
      no_cause

unfoldable pub new_not_found_error : String → ErrorCode → AppError
new_not_found_error message code = app_error not_found code message no_details 404 no_cause

unfoldable pub new_unauthorized_error : String → ErrorCode → AppError
new_unauthorized_error message code = app_error unauthorized code message no_details 401 no_cause

unfoldable pub new_forbidden_error : String → ErrorCode → AppError
new_forbidden_error message code = app_error forbidden code message no_details 403 no_cause

unfoldable pub new_internal_error : String → GoError → AppError
new_internal_error message cause =
    app_error internal internal_error message no_details 500 (caused_by cause)

unfoldable pub new_conflict_error : String → ErrorCode → AppError
new_conflict_error message code = app_error conflict code message no_details 409 no_cause

-- What each variable of the package points to.
unfoldable pub global_error : Global → AppError
unfolding new_not_found_error new_forbidden_error new_validation_error new_unauthorized_error
global_error expense_not_found = new_not_found_error "Expense not found" code_expense_not_found
global_error unauthorized_access =
    new_forbidden_error "unauthorized access to expense" code_unauthorized_access
global_error invalid_expense_status =
    new_validation_error "invalid expense status for this operation" code_invalid_expense_status
global_error cannot_modify_expense =
    new_validation_error "Cannot modify expense in current status" code_cannot_modify_expense
global_error invalid_credentials =
    new_unauthorized_error "Invalid email or password" code_invalid_credentials
global_error user_inactive = new_forbidden_error "User account is inactive" code_user_inactive
global_error invalid_token = new_unauthorized_error "Invalid token" code_invalid_token
global_error token_expired = new_unauthorized_error "Token has expired" code_token_expired

-- The type assertion `err.(*AppError)`: a wrap is not looked through.
unfoldable pub is_app_error : GoError → Option AppError
unfolding global_error
is_app_error (global g) = some (global_error g)
is_app_error (app e) = some e
is_app_error _ = none

abbrev auth_text : AuthGlobal → String
auth_text auth_invalid_credentials = "invalid credentials"
auth_text auth_invalid_token = "invalid token"
auth_text auth_token_expired = "token expired"
auth_text auth_user_inactive = "user is inactive"

-- `Error()` of each kind of error.
unfoldable mutual
  unfolding global_error

  pub error_text : GoError → String
  error_text (global g) = message_of (global_error g)
  error_text (app e) = app_error_text e
  error_text (msg m) = m
  error_text (wrap prefix e) = prefix <> ": " <> error_text e
  error_text record_not_found = "record not found"
  error_text (database m) = m
  error_text (auth g) = auth_text g
  error_text (auth_validation m) = m

  pub app_error_text : AppError → String
  app_error_text (app_error t c m (validation_errors (e ∷ es)) s cause) = e.message
  app_error_text (app_error t c m _ s cause) = cause_text m cause

  pub cause_text : String → Cause → String
  cause_text m no_cause = m
  cause_text m (caused_by e) = m <> ": " <> error_text e

abbrev join : String → List ValidationError → String
join first [] = first
join first (e ∷ es) = first <> "; " <> join e.message es

-- `GetDetailedMessage`.
unfoldable pub get_detailed_message : AppError → String
get_detailed_message (app_error t c m (validation_errors (e ∷ es)) s cause) = join e.message es
get_detailed_message (app_error t c m _ s cause) = m

-- `ToHTTPResponse`: the status and the error that is encoded.
unfoldable pub to_http_response : AppError → ℕ × AppError
to_http_response e = (status_code_of e, e)
