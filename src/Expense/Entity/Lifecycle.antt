-- ===== src/Expense/Entity/Lifecycle.antt =====
-- The life of an expense in internal/expense/expense.go.
use expense_management.Prelude.{
  ℕ, List, [], ◌∷◌, map, true, false, ◌≡◌, refl, ◌↔◌, inl, inr, ℤ, pos, ◌<ℤ◌, ◌≤ℤ◌, ltb_ℤ,
  Bool-cases, arith, ap,
}
use expense_management.Expense.Dto.{CreateExpenseDto}
use expense_management.Expense.Entity.{
  Expense, new_expense, approve, reject, complete, can_be_approved, can_be_rejected,
  should_be_auto_approved, needs_payment_processing, to_data_model, from_data_model,
  from_data_model_slice,
}

-- No field is lost on the way to the row and back.
pub from_data_model_slice-to_data_model :
    (es : List Expense) → from_data_model_slice (map to_data_model es) ≡ es
unfolding from_data_model_slice from_data_model to_data_model
from_data_model_slice-to_data_model [] = refl
from_data_model_slice-to_data_model (e ∷ es) =
    ap (λ l. e ∷ l) (from_data_model_slice-to_data_model es)

-- Once approved, rejected or completed, an expense can be neither approved nor rejected, and of
-- these three only the approved one needs a payment.
decided_once :
    (now : ℕ) (e : Expense)
    → (can_be_approved (approve now e) ≡ false)
      × (can_be_rejected (approve now e) ≡ false)
      × (can_be_approved (reject now e) ≡ false)
      × (can_be_rejected (reject now e) ≡ false)
      × (can_be_approved (complete now e) ≡ false)
      × (can_be_rejected (complete now e) ≡ false)
      × (needs_payment_processing (approve now e) ≡ true)
      × (needs_payment_processing (reject now e) ≡ false)
      × (needs_payment_processing (complete now e) ≡ false)
unfolding approve reject complete can_be_approved can_be_rejected needs_payment_processing
decided_once now e = (refl, refl, refl, refl, refl, refl, refl, refl, refl)

-- A new expense needs a payment exactly if its amount is below 1,000,000 rupiah, and can be
-- approved, and can be rejected, exactly if it is 1,000,000 or more.
new_expense_lem :
    (now later : ℕ) (user_id : ℤ) (dto : CreateExpenseDto)
    → ((needs_payment_processing (new_expense now later user_id dto) ≡ true)
        ↔ (dto.amount_idr <ℤ pos 1000000))
      × ((can_be_approved (new_expense now later user_id dto) ≡ true)
          ↔ (pos 1000000 ≤ℤ dto.amount_idr))
      × ((can_be_rejected (new_expense now later user_id dto) ≡ true)
          ↔ (pos 1000000 ≤ℤ dto.amount_idr))
unfolding new_expense approve should_be_auto_approved needs_payment_processing can_be_approved
    can_be_rejected
new_expense_lem now later user_id dto = elim (Bool-cases (ltb_ℤ dto.amount_idr (pos 1000000))) [
  | inl low ↦ rw low (
    (λ h. ground arith, λ h. refl),
    (λ h. cc h, λ h. ground arith),
    (λ h. cc h, λ h. ground arith),
  )
  | inr high ↦ rw high (
    (λ h. cc h, λ h. ground arith),
    (λ h. ground arith, λ h. refl),
    (λ h. ground arith, λ h. refl),
  )
]
