-- ===== src/Expense/Service/Approval.antt =====
-- What approving and rejecting an expense does, on every branch of internal/expense/service.go.
use expense_management.Prelude.{
  Bool, String, List, true, false, some, ◌++◌, ◌≡◌, refl, ◌⊎◌, inl, inr, ◌≢◌, Result-cases, ℤ, find,
  update_where, eq_iff, Result, ok, err, str_eq, Bool-cases,
}
use expense_management.Errors.{
  GoError, global, expense_not_found, unauthorized_access, invalid_expense_status,
}
use expense_management.Auth.Permissions.{can_approve_expenses}
use expense_management.Events.{Event, expense_approved, new_expense_approved_event}
use expense_management.Events.Bus.{EventBus, publish}
use expense_management.World.{World, IsUntouched, Env, on_db-bind_ok, on_db-bind_err}
use expense_management.Expense.Query.{ExpenseQueryParams}
use expense_management.Expense.Entity.{
  ExpenseRow, approve, can_be_approved, to_data_model, from_data_model,
}
use expense_management.Expense.Repository.{RepositoryApi, IsRepository, has_id}
use expense_management.Expense.Service.Effects.{stored_rows}
use expense_management.Expense.Service.{PaymentProcessorApi, store_approved, approve_expense}

module _ {Db H View : Type 0} (repo : RepositoryApi Db)
    (processor : PaymentProcessorApi (World Db H) View) (bus : EventBus H)
    (rows : Db → List ExpenseRow) {matches : ExpenseQueryParams → ExpenseRow → Bool}
    (laws : IsRepository repo rows matches) where
  -- The row that approving writes, and the event that it publishes.
  abbrev pub approved_row : Env → ExpenseRow → ExpenseRow
  approved_row env r = record (to_data_model (approve (env.clock 0) (from_data_model r))) {
    updated_at = env.clock 1;
  }

  -- The event that approving publishes, and what `Publish` starts for it.
  abbrev pub approved_event : Env → ℤ → ExpenseRow → List (H × Event)
  approved_event env id r =
      publish
        (expense_approved
          (new_expense_approved_event env.uuid (env.clock 2) id r.amount_idr r.user_id "IDR"))
        bus

  module _ (env : Env) (id manager_id : ℤ) (perms : List String) (w : World Db H) where
    -- The five ways in which an approval ends.
    abbrev pub ApproveOutcome : Result GoError (Unit {0}) × World Db H → Type 0
    ApproveOutcome r =
        ((can_approve_expenses perms ≡ false) × (r ≡ (err (global unauthorized_access), w)))
        ⊎ ((x : GoError) × (can_approve_expenses perms ≡ true)
            × (repo.get_by_id id w.db ≡ err x)
            × (r ≡ (err (global expense_not_found), w)))
        ⊎ ((row : ExpenseRow) × (can_approve_expenses perms ≡ true)
            × (repo.get_by_id id w.db ≡ ok row)
            × (row.expense_status ≢ "pending_approval")
            × (r ≡ (err (global invalid_expense_status), w)))
        ⊎ ((row : ExpenseRow) × (x : GoError) × (can_approve_expenses perms ≡ true)
            × (repo.get_by_id id w.db ≡ ok row)
            × (row.expense_status ≡ "pending_approval")
            × ((repo.update (env.clock 1)
                  (to_data_model (approve (env.clock 0) (from_data_model row))) w.db).0
                ≡ err x)
            × (r.0 ≡ err x)
            × IsUntouched rows w r.1)
        ⊎ ((row : ExpenseRow) × (can_approve_expenses perms ≡ true)
            × (find (has_id id) (rows w.db) ≡ some row)
            × (row.expense_status ≡ "pending_approval")
            × (r.0 ≡ ok tt)
            × (rows r.1.db ≡ update_where (has_id id) (λ q. approved_row env row) (rows w.db))
            × (r.1.spawned ≡ w.spawned ++ approved_event env id row)
            × (r.1.job_queue ≡ w.job_queue))

    approve_pending :
        (row : ExpenseRow)
        → can_approve_expenses perms ≡ true
        → repo.get_by_id id w.db ≡ ok row
        → str_eq row.expense_status "pending_approval" ≡ true
        → approve_expense repo processor bus env id manager_id perms w
          ≡ store_approved repo processor bus env id (approve (env.clock 0) (from_data_model row)) w
    unfolding approve_expense can_be_approved from_data_model store_approved
    approve_pending row allowed found pending = rw (allowed, found, pending)

    store_outcome :
        (row : ExpenseRow)
        → can_approve_expenses perms ≡ true
        → repo.get_by_id id w.db ≡ ok row
        → str_eq row.expense_status "pending_approval" ≡ true
        → ApproveOutcome (
            store_approved repo processor bus env id
              (approve (env.clock 0) (from_data_model row))
              w)
    unfolding store_approved to_data_model from_data_model approve
    store_outcome row allowed found pending =
        let next = to_data_model (approve (env.clock 0) (from_data_model row)) in
        let kept = (eq_iff row.expense_status "pending_approval").0 pending in
        let stored = repo.update (env.clock 1) next in
        elim (Result-cases (stored w.db).0) [
          | inr (x, failed) ↦ rw (on_db-bind_err _ w stored failed) (
              inr (
                inr (
                  inr (
                    inl (
                      row,
                      x,
                      allowed,
                      found,
                      kept,
                      failed,
                      refl,
                      (laws.update_err (env.clock 1) next w.db x failed, refl, refl),
                    )))))
          | inl (u, done) ↦ rw (on_db-bind_ok _ w stored done) (
              inr (
                inr (
                  inr (
                    inr (
                      row,
                      allowed,
                      laws.get_by_id_ok id w.db row found,
                      kept,
                      refl,
                      stored_rows repo rows laws (env.clock 1) id w.db row next refl found done,
                      refl,
                      refl,
                    )))))
        ]

    -- For every expense repository that keeps its laws, an approval ends in one of five ways.
    -- Without the permission to approve it answers unauthorized, for an id that the repository
    -- does not find it answers not found, and for an expense that is not pending it answers
    -- invalid status, all three with the state as it was; if the repository cannot store the
    -- expense it answers an error and leaves the rows, the goroutines and the job queue as they
    -- were; otherwise the rows with the id become the row that was read, approved and with the
    -- times of the call, and exactly the goroutines of the handlers of its expense.approved event
    -- are started.
    pub approve_expense_outcome :
        ApproveOutcome (approve_expense repo processor bus env id manager_id perms w)
    unfolding approve_expense can_be_approved from_data_model
    approve_expense_outcome = elim (Bool-cases (can_approve_expenses perms)) [
      | inr denied ↦ inl (denied, rw denied)
      | inl allowed ↦ elim (Result-cases (repo.get_by_id id w.db)) [
        | inr (x, missing) ↦ inr (inl (x, allowed, missing, rw (allowed, missing)))
        | inl (row, found) ↦ elim (Bool-cases (str_eq row.expense_status "pending_approval")) [
          | inl pending ↦
              rw (approve_pending row allowed found pending)
                (store_outcome row allowed found pending)
          | inr other ↦ inr (
              inr (
                inl (
                  row,
                  allowed,
                  found,
                  λ e. cc (other, (eq_iff row.expense_status "pending_approval").1 e),
                  rw (allowed, found, other),
                )))
        ]
      ]
    ]
