-- ===== src/Expense/Service/Rejection.antt =====
-- What rejecting an expense does, on every branch of internal/expense/service.go.
use expense_management.Prelude.{
  Bool, String, List, true, false, some, ◌≡◌, refl, ◌⊎◌, inl, inr, ◌≢◌, Result-cases, ℤ, find,
  update_where, eq_iff, Result, ok, err, str_eq, Bool-cases,
}
use expense_management.Errors.{
  GoError, global, expense_not_found, unauthorized_access, invalid_expense_status,
}
use expense_management.Auth.Permissions.{can_reject_expenses}
use expense_management.Events.Bus.{EventBus}
use expense_management.World.{World, IsUntouched, Env}
use expense_management.Expense.Query.{ExpenseQueryParams}
use expense_management.Expense.Entity.{
  ExpenseRow, reject, can_be_rejected, to_data_model, from_data_model,
}
use expense_management.Expense.Repository.{RepositoryApi, IsRepository, has_id}
use expense_management.Expense.Service.Effects.{stored_rows}
use expense_management.Expense.Service.{PaymentProcessorApi, reject_expense}

module _ {Db H View : Type 0} (repo : RepositoryApi Db)
    (processor : PaymentProcessorApi (World Db H) View) (bus : EventBus H)
    (rows : Db → List ExpenseRow) {matches : ExpenseQueryParams → ExpenseRow → Bool}
    (laws : IsRepository repo rows matches) (env : Env) (id manager_id : ℤ) (reason : String)
    (perms : List String) (w : World Db H) where
  -- The row that rejecting writes. The reason is not in it.
  abbrev pub rejected_row : ExpenseRow → ExpenseRow
  rejected_row r = record (to_data_model (reject (env.clock 0) (from_data_model r))) {
    updated_at = env.clock 1;
  }

  -- The five ways in which a rejection ends.
  abbrev pub RejectOutcome : Result GoError (Unit {0}) × World Db H → Type 0
  RejectOutcome r =
      ((can_reject_expenses perms ≡ false) × (r ≡ (err (global unauthorized_access), w)))
      ⊎ ((x : GoError) × (can_reject_expenses perms ≡ true)
          × (repo.get_by_id id w.db ≡ err x)
          × (r ≡ (err (global expense_not_found), w)))
      ⊎ ((row : ExpenseRow) × (can_reject_expenses perms ≡ true)
          × (repo.get_by_id id w.db ≡ ok row)
          × (row.expense_status ≢ "pending_approval")
          × (r ≡ (err (global invalid_expense_status), w)))
      ⊎ ((row : ExpenseRow) × (x : GoError) × (can_reject_expenses perms ≡ true)
          × (repo.get_by_id id w.db ≡ ok row)
          × (row.expense_status ≡ "pending_approval")
          × ((repo.update (env.clock 1) (to_data_model (reject (env.clock 0) (from_data_model row)))
                w.db).0
              ≡ err x)
          × (r.0 ≡ err x)
          × IsUntouched rows w r.1)
      ⊎ ((row : ExpenseRow) × (can_reject_expenses perms ≡ true)
          × (find (has_id id) (rows w.db) ≡ some row)
          × (row.expense_status ≡ "pending_approval")
          × (r.0 ≡ ok tt)
          × (rows r.1.db ≡ update_where (has_id id) (λ q. rejected_row row) (rows w.db))
          × (r.1.spawned ≡ w.spawned)
          × (r.1.job_queue ≡ w.job_queue))

  reject_pending :
      (row : ExpenseRow)
      → can_reject_expenses perms ≡ true
      → repo.get_by_id id w.db ≡ ok row
      → str_eq row.expense_status "pending_approval" ≡ true
      → RejectOutcome (reject_expense repo processor bus env id manager_id reason perms w)
  unfolding reject_expense can_be_rejected from_data_model to_data_model reject
  reject_pending row allowed found pending =
      let next = to_data_model (reject (env.clock 0) (from_data_model row)) in
      let kept = (eq_iff row.expense_status "pending_approval").0 pending in
      elim (Result-cases (repo.update (env.clock 1) next w.db).0) [
        | inr (x, failed) ↦ inr (
            inr (
              inr (
                inl (
                  row,
                  x,
                  allowed,
                  found,
                  kept,
                  failed,
                  rw (allowed, found, pending) failed,
                  rw (allowed, found, pending)
                      (laws.update_err (env.clock 1) next w.db x failed, refl, refl),
                ))))
        | inl (u, done) ↦ inr (
            inr (
              inr (
                inr (
                  row,
                  allowed,
                  laws.get_by_id_ok id w.db row found,
                  kept,
                  rw (allowed, found, pending) done,
                  rw (allowed, found, pending)
                      (stored_rows repo rows laws (env.clock 1) id w.db row next refl found done),
                  rw (allowed, found, pending),
                  rw (allowed, found, pending),
                ))))
      ]

  -- For every expense repository that keeps its laws, a rejection ends in one of five ways.
  -- Without the permission to reject it answers unauthorized, for an id that the repository does
  -- not find it answers not found, and for an expense that is not pending it answers invalid
  -- status, all three with the state as it was; if the repository cannot store the expense it
  -- answers an error and changes nothing; otherwise the rows with the id become the row that was
  -- read, rejected and with the times of the call, and no goroutine is started and no job queued.
  -- The reason is in none of these.
  pub reject_expense_outcome :
      RejectOutcome (reject_expense repo processor bus env id manager_id reason perms w)
  unfolding reject_expense can_be_rejected from_data_model
  reject_expense_outcome = elim (Bool-cases (can_reject_expenses perms)) [
    | inr denied ↦ inl (denied, rw denied)
    | inl allowed ↦ elim (Result-cases (repo.get_by_id id w.db)) [
      | inr (x, missing) ↦ inr (inl (x, allowed, missing, rw (allowed, missing)))
      | inl (row, found) ↦ elim (Bool-cases (str_eq row.expense_status "pending_approval")) [
        | inl pending ↦ reject_pending row allowed found pending
        | inr other ↦ inr (
            inr (
              inl (
                row,
                allowed,
                found,
                λ e. cc (other, (eq_iff row.expense_status "pending_approval").1 e),
                rw (allowed, found, other),
              )))
      ]
    ]
  ]
