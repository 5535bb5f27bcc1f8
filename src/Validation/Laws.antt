-- ===== src/Validation/Laws.antt =====
-- When the builder of internal/core/common/validation/validation.go reports nothing.
use expense_management.Prelude.{
  ◌≤◌, String, List, [], ◌∷◌, none, ◌≡◌, refl, ◌≢◌, ◌↔◌, arith, ℤ, pos, ◌≤ℤ◌, len, eq_iff, All,
  Option, some, ◌⊎◌, inl, inr,
}
use mathlib.Core.List.{append-eq-nil_iff}
use expense_management.Errors.{
  ValidationError, AppError, app_error, no_details, validation_errors, details_of, is_app_error,
  new_validation_field_error,
}
use expense_management.Validation.{
  Value, FieldValidator, ValidationBuilder, ValidatorFunc, run_validators, run_fields, outcome,
  validate, reported, validate_expense_amount, validate_expense_description,
}

-- An amount passes its validation exactly when it is from 10,000 to 50,000,000 rupiah.
pub validate_expense_amount_iff :
    (amount : ℤ)
    → (validate_expense_amount amount ≡ none) ↔ ((pos 10000 ≤ℤ amount) × (amount ≤ℤ pos 50000000))
unfolding validate_expense_amount is_app_error new_validation_field_error
validate_expense_amount_iff amount = (λ h. ground arith, λ h. ground arith)

-- A description passes its validation exactly when it is not empty and takes from 1 to 500 bytes.
pub validate_expense_description_iff :
    (description : String)
    → (validate_expense_description description ≡ none)
      ↔ ((description ≢ "") × (1 ≤ len description) × (len description ≤ 500))
unfolding validate_expense_description is_app_error new_validation_field_error
validate_expense_description_iff description =
    (λ h. ground (arith, eq_iff description ""), λ h. ground (arith, eq_iff description ""))

-- A validator's answer is nil, or an error that carries an empty list of details.
abbrev pub IsNoError : Option AppError → Type 0
IsNoError answer =
    (answer ≡ none) ⊎ ((e : AppError) × (answer ≡ some e) × (details_of e ≡ validation_errors []))

-- A validator of a field finds no error in its value.
abbrev pub Accepts : Value → ValidatorFunc → Type 0
Accepts value f = IsNoError (f value)

reported_iff :
    (name : String) (answer : Option AppError) → (reported name answer ≡ []) ↔ IsNoError answer
unfolding is_app_error
reported_iff name none = (λ h. inl refl, λ h. refl)
reported_iff name (some (app_error t c m no_details s k)) =
    (λ h. absurd cc, λ h. absurd (ground arith))
reported_iff name (some (app_error t c m (validation_errors es) s k)) =
    (λ h. inr (_, refl, rw h refl), λ h. ground arith)

run_validators_iff :
    (name : String) (value : Value) (fs : List ValidatorFunc)
    → (run_validators name value fs ≡ []) ↔ All (Accepts value) fs
unfolding run_validators
run_validators_iff name value [] = (λ h. tt, λ h. refl)
run_validators_iff name value (f ∷ fs) = (
  λ h.
      let (here, later) = append-eq-nil_iff.0 h in
      ((reported_iff name (f value)).0 here, (run_validators_iff name value fs).0 later),
  λ h.
      append-eq-nil_iff.1
        ((reported_iff name (f value)).1 h.0, (run_validators_iff name value fs).1 h.1),
)

-- Every validator of a field finds no error.
abbrev pub Passes : FieldValidator → Type 0
Passes fv = All (Accepts fv.value) fv.validators

run_fields_iff : (fvs : List FieldValidator) → (run_fields fvs ≡ []) ↔ All Passes fvs
unfolding run_fields
run_fields_iff [] = (λ h. tt, λ h. refl)
run_fields_iff (fv ∷ fvs) = (
  λ h.
      let (here, later) = append-eq-nil_iff.0 h in
      (
        (run_validators_iff fv.field_name fv.value fv.validators).0 here,
        (run_fields_iff fvs).0 later,
      ),
  λ h.
      append-eq-nil_iff.1 (
        (run_validators_iff fv.field_name fv.value fv.validators).1 h.0,
        (run_fields_iff fvs).1 h.1,
      ),
)

outcome_iff : (es : List ValidationError) → (outcome es ≡ none) ↔ (es ≡ [])
unfolding outcome
outcome_iff [] = (λ h. refl, λ h. refl)
outcome_iff (e ∷ es) = (λ h. cc, λ h. cc)

-- A validation builder reports no error exactly when every validator of every field answers, for
-- the field's value, nil or an error that carries an empty list of details.
pub validate_iff : (b : ValidationBuilder) → (validate b ≡ none) ↔ All Passes b.fields
unfolding validate
validate_iff b = (
  λ h. (run_fields_iff b.fields).0 ((outcome_iff (run_fields b.fields)).0 h),
  λ h. (outcome_iff (run_fields b.fields)).1 ((run_fields_iff b.fields).1 h),
)
