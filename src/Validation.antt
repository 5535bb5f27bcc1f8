-- ===== src/Validation.antt =====
-- internal/core/common/validation/validation.go: the validation builder.
--
-- `Field` returns a pointer into the builder's slice and the chained calls append their validators
-- to it, so `field` takes the chain as a function on the new `FieldValidator`. The clock reading
-- that a validator makes is its argument `now`.
pub mod Laws
use expense_management.Prelude.{
  ℕ, String, List, [], ◌∷◌, ◌++◌, Option, none, some, Bool, true, ◌&&◌, ◌<>◌, ltb, if◌then◌else◌, ℤ,
  pos, ltb_ℤ, eq_ℤ, str_eq, show, len,
}
use expense_management.Errors.{
  ErrorCode, AppError, app_error, app, no_details, validation_errors, ValidationError,
  validation_failed, invalid_amount, amount_too_low, amount_too_high, invalid_date,
  new_validation_error, new_validation_field_error, with_details, is_app_error,
}

-- The types that the switches of the validators tell apart.
pub data Value : Type 0 where
  str : String → Value
  int : ℤ → Value
  str_ptr : Option String → Value
  time : ℕ → Value

abbrev pub ValidatorFunc : Type 0
ValidatorFunc = Value → Option AppError

pub record FieldValidator : Type 0 where
  pub field_name : String
  pub value : Value
  pub validators : List ValidatorFunc

pub record ValidationBuilder : Type 0 where
  pub fields : List FieldValidator

unfoldable pub new_validator : ValidationBuilder
new_validator = record { fields = [] }

unfoldable pub field :
    String → Value → (FieldValidator → FieldValidator) → ValidationBuilder → ValidationBuilder
field name value chain b = record {
  fields = b.fields ++ chain (record { field_name = name; value = value; validators = [] }) ∷ [];
}

abbrev append : FieldValidator → ValidatorFunc → FieldValidator
append fv f = record fv { validators = fv.validators ++ f ∷ [] }

abbrev is_required : String → Option AppError
is_required name = some (new_validation_field_error name (name <> " is required") validation_failed)

abbrev empty_ptr : Option String → Bool
empty_ptr none = true
empty_ptr (some s) = str_eq s ""

required_check : String → ValidatorFunc
required_check name (str v) = if str_eq v "" then is_required name else none
required_check name (int v) =
    if eq_ℤ v (pos 0)
    then (if str_eq name "amount_idr"
        then some (new_validation_field_error name "amount must be positive" validation_failed)
        else is_required name)
    else none
required_check name (str_ptr v) = if empty_ptr v then is_required name else none
required_check name (time v) = none

unfoldable pub required : FieldValidator → FieldValidator
unfolding required_check
required fv = append fv (required_check fv.field_name)

min_int_message : String → ℤ → String
min_int_message name min =
    if str_eq name "amount_idr"
    then (if eq_ℤ min (pos 10000)
        then "amount must be at least 10,000 IDR"
        else "amount must be at least " <> show min)
    else name <> " must be at least " <> show min

min_int_check : String → ℤ → ErrorCode → ValidatorFunc
unfolding min_int_message
min_int_check name min code (int v) =
    if ltb_ℤ v min
    then some (new_validation_field_error name (min_int_message name min) code)
    else none
min_int_check name min code _ = none

unfoldable pub min_int : ℤ → ErrorCode → FieldValidator → FieldValidator
unfolding min_int_check
min_int min code fv = append fv (min_int_check fv.field_name min code)

max_int_message : String → ℤ → String
max_int_message name max =
    if str_eq name "amount_idr" && eq_ℤ max (pos 50000000)
    then "amount must not exceed 50,000,000 IDR"
    else name <> " must not exceed " <> show max

max_int_check : String → ℤ → ErrorCode → ValidatorFunc
unfolding max_int_message
max_int_check name max code (int v) =
    if ltb_ℤ max v
    then some (new_validation_field_error name (max_int_message name max) code)
    else none
max_int_check name max code _ = none

unfoldable pub max_int : ℤ → ErrorCode → FieldValidator → FieldValidator
unfolding max_int_check
max_int max code fv = append fv (max_int_check fv.field_name max code)

-- `len` counts bytes, as Go's does. The bounds given are literals, so they are numbers.
min_length_check : String → ℕ → ValidatorFunc
min_length_check name min (str v) =
    if ltb (len v) min
    then some (
        new_validation_field_error name
          (name <> " must be at least " <> show (pos min) <> " characters") validation_failed)
    else none
min_length_check name min _ = none

unfoldable pub min_length : ℕ → FieldValidator → FieldValidator
unfolding min_length_check
min_length min fv = append fv (min_length_check fv.field_name min)

max_length_check : String → ℕ → ValidatorFunc
max_length_check name max (str v) =
    if ltb max (len v)
    then some (
        new_validation_field_error name
          (name <> " must not exceed " <> show (pos max) <> " characters") validation_failed)
    else none
max_length_check name max _ = none

unfoldable pub max_length : ℕ → FieldValidator → FieldValidator
unfolding max_length_check
max_length max fv = append fv (max_length_check fv.field_name max)

-- `v.After(time.Now())`
not_future_check : String → ℕ → ValidatorFunc
not_future_check name now (time v) =
    if ltb now v
    then some (new_validation_field_error name (name <> " cannot be in the future") invalid_date)
    else none
not_future_check name now _ = none

unfoldable pub not_future : ℕ → FieldValidator → FieldValidator
unfolding not_future_check
not_future now fv = append fv (not_future_check fv.field_name now)

unfoldable pub custom : ValidatorFunc → FieldValidator → FieldValidator
custom validator fv = append fv validator

-- What one failed validator adds to the list of errors.
abbrev details_or : String → Option AppError → List ValidationError
details_or name none = []
details_or name (some (app_error t c m (validation_errors es) s k)) = es
details_or name (some (app_error t c m no_details s k)) =
    record { field = name; message = m; code = c } ∷ []

abbrev reported : String → Option AppError → List ValidationError
reported name none = []
reported name (some e) = details_or name (is_app_error (app e))

-- The inner loop, over the validators of a field.
unfoldable pub run_validators : String → Value → List ValidatorFunc → List ValidationError
run_validators name value [] = []
run_validators name value (f ∷ fs) = reported name (f value) ++ run_validators name value fs

-- The outer loop, over the fields.
unfoldable pub run_fields : List FieldValidator → List ValidationError
unfolding run_validators
run_fields [] = []
run_fields (fv ∷ fvs) = run_validators fv.field_name fv.value fv.validators ++ run_fields fvs

outcome : List ValidationError → Option AppError
outcome [] = none
outcome (e ∷ es) =
    some (with_details (new_validation_error "Validation failed" validation_failed) (e ∷ es))

unfoldable pub validate : ValidationBuilder → Option AppError
unfolding outcome run_fields
validate b = outcome (run_fields b.fields)

-- The chain of calls on the amount, shared by `ValidateExpenseAmount` and `CreateExpenseDTO`.
abbrev pub amount_chain : FieldValidator → FieldValidator
amount_chain fv =
    max_int (pos 50000000) amount_too_high
      (min_int (pos 10000) amount_too_low (min_int (pos 1) invalid_amount (required fv)))

abbrev pub description_chain : FieldValidator → FieldValidator
description_chain fv = max_length 500 (min_length 1 (required fv))

unfoldable pub validate_expense_amount : ℤ → Option AppError
unfolding validate field new_validator required min_int max_int
validate_expense_amount amount =
    validate (field "amount_idr" (int amount) amount_chain new_validator)

unfoldable pub validate_expense_description : String → Option AppError
unfolding validate field new_validator required min_length max_length
validate_expense_description description =
    validate (field "description" (str description) description_chain new_validator)

unfoldable pub validate_expense_date : ℕ → ℕ → Option AppError
unfolding validate field new_validator not_future
validate_expense_date now date =
    validate (field "expense_date" (time date) (not_future now) new_validator)
