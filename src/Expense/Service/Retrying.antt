-- ===== src/Expense/Service/Retrying.antt =====
-- Retrying the payment of an expense, on every branch of internal/expense/service.go.
use expense_management.Prelude.{
  String, List, true, false, ◌≡◌, refl, ◌∙◌, ◌⊎◌, inl, inr, ◌≢◌, Result-cases, Bool-cases, ℤ,
  Result, ok, err, str_eq, eq_iff, map_err, bind-ok, bind-err, map_err-ok, map_err-err, Exec, ◌>>◌,
}
use expense_management.Errors.{
  GoError, global, wrap, expense_not_found, unauthorized_access, invalid_expense_status,
}
use expense_management.Auth.Permissions.{can_retry_payments}
use expense_management.Events.Bus.{EventBus}
use expense_management.World.{World, Env}
use expense_management.Expense.Entity.{ExpenseRow}
use expense_management.Expense.Repository.{RepositoryApi}
use expense_management.Expense.Service.{PaymentProcessorApi, retry_payment, external_id_of}

module _ {Db H View : Type 0} (repo : RepositoryApi Db)
    (processor : PaymentProcessorApi (World Db H) View) (bus : EventBus H) (env : Env) (id : ℤ)
    (perms : List String) (w : World Db H) where
  -- The retry that is asked of the processor.
  abbrev pub asked : ExpenseRow → Exec (World Db H) GoError (Unit {0})
  asked row =
      map_err (wrap "payment retry failed")
        (processor.retry_payment env id (external_id_of id row.amount_idr))

  -- The five ways in which a retry ends.
  abbrev pub RetryOutcome : Result GoError (Unit {0}) × World Db H → Type 0
  RetryOutcome r =
      ((can_retry_payments perms ≡ false) × (r ≡ (err (global unauthorized_access), w)))
      ⊎ ((x : GoError) × (can_retry_payments perms ≡ true)
          × (repo.get_by_id id w.db ≡ err x)
          × (r ≡ (err (global expense_not_found), w)))
      ⊎ ((row : ExpenseRow) × (can_retry_payments perms ≡ true)
          × (repo.get_by_id id w.db ≡ ok row)
          × (row.expense_status ≢ "approved")
          × (r ≡ (err (global invalid_expense_status), w)))
      ⊎ ((row : ExpenseRow) × (x : GoError) × (can_retry_payments perms ≡ true)
          × (repo.get_by_id id w.db ≡ ok row)
          × (row.expense_status ≡ "approved")
          × ((processor.get_payment_status id w).0 ≡ err x)
          × (r ≡ (err (global invalid_expense_status), (processor.get_payment_status id w).1)))
      ⊎ ((row : ExpenseRow) × (view : View) × (can_retry_payments perms ≡ true)
          × (repo.get_by_id id w.db ≡ ok row)
          × (row.expense_status ≡ "approved")
          × ((processor.get_payment_status id w).0 ≡ ok view)
          × (r ≡ asked row (processor.get_payment_status id w).1))

  status_known : Exec (World Db H) GoError View
  status_known = map_err (λ e. global invalid_expense_status) (processor.get_payment_status id)

  approved_only :
      (row : ExpenseRow)
      → can_retry_payments perms ≡ true
      → repo.get_by_id id w.db ≡ ok row
      → str_eq row.expense_status "approved" ≡ true
      → retry_payment repo processor bus env id perms w ≡ (status_known >> asked row) w
  unfolding retry_payment status_known external_id_of
  approved_only row allowed found approved = rw (allowed, found, approved) refl

  approved_outcome :
      (row : ExpenseRow)
      → can_retry_payments perms ≡ true
      → repo.get_by_id id w.db ≡ ok row
      → str_eq row.expense_status "approved" ≡ true
      → RetryOutcome (retry_payment repo processor bus env id perms w)
  unfolding status_known
  approved_outcome row allowed found approved =
      let kept = (eq_iff row.expense_status "approved").0 approved in
      let status = processor.get_payment_status id in
      let next = λ (v : View). asked row in
      let start = approved_only row allowed found approved in
      elim (Result-cases (status w).0) [
        | inr (x, failed) ↦ inr (
            inr (
              inr (
                inl (
                  row,
                  x,
                  allowed,
                  found,
                  kept,
                  failed,
                  start ∙ bind-err status_known next w (map_err-err _ status w failed),
                ))))
        | inl (view, known) ↦ inr (
            inr (
              inr (
                inr (
                  row,
                  view,
                  allowed,
                  found,
                  kept,
                  known,
                  start ∙ bind-ok status_known next w (map_err-ok _ status w known),
                ))))
      ]

  -- A retry ends in one of five ways. Without the permission to retry it answers unauthorized,
  -- for an id that the repository does not find it answers not found, and for an expense that is
  -- not approved it answers invalid status, all three with the state as it was; if the payment's
  -- status cannot be had it answers invalid status, with the state that asking for it left;
  -- otherwise the answer and the state are those of asking the payment processor for a retry
  -- under the external id that is made of the expense's id and amount, with an error wrapped.
  pub retry_payment_outcome : RetryOutcome (retry_payment repo processor bus env id perms w)
  unfolding retry_payment
  retry_payment_outcome = elim (Bool-cases (can_retry_payments perms)) [
    | inr denied ↦ inl (denied, rw denied refl)
    | inl allowed ↦ elim (Result-cases (repo.get_by_id id w.db)) [
      | inr (x, missing) ↦ inr (inl (x, allowed, missing, rw (allowed, missing) refl))
      | inl (row, found) ↦ elim (Bool-cases (str_eq row.expense_status "approved")) [
        | inl approved ↦ approved_outcome row allowed found approved
        | inr other ↦ inr (
            inr (
              inl (
                row,
                allowed,
                found,
                λ e. cc (other, (eq_iff row.expense_status "approved").1 e),
                rw (allowed, found, other) refl,
              )))
      ]
    ]
  ]
