-- ===== src/Expense/Service/Access.antt =====
-- Reading one expense and changing its status, in internal/expense/service.go.
use expense_management.Prelude.{
  ◌<>◌, show, Bool, String, List, true, false, some, ◌≡◌, refl, ◌⊎◌, inl, inr, ◌≢◌, Result-cases,
  Bool-cases, ℤ, eq_ℤ, eq_ℤ_iff, find, update_where, Result, ok, err, map_err-ok, map_err-err, ap,
  ◌∙◌,
}
use expense_management.Errors.{GoError, global, wrap, expense_not_found, unauthorized_access}
use expense_management.Auth.Permissions.{can_view_all_expenses}
use expense_management.Events.{payment_completed, PaymentCompletedEvent}
use expense_management.Events.Bus.{EventBus}
use expense_management.World.{World, IsUntouched, Env, on_db, on_db-bind_ok, on_db-bind_err}
use expense_management.Expense.Query.{ExpenseQueryParams}
use expense_management.Expense.Entity.{Expense, ExpenseRow, from_data_model}
use expense_management.Expense.Repository.{RepositoryApi, IsRepository, has_id, set_status}
use expense_management.Expense.Service.{
  PaymentProcessorApi, submit_expense_for_approval, get_expense_by_id, update_expense_status,
  handle_payment_completed,
}

module _ {Db H View : Type 0} (repo : RepositoryApi Db)
    (processor : PaymentProcessorApi (World Db H) View) (bus : EventBus H)
    (rows : Db → List ExpenseRow) {matches : ExpenseQueryParams → ExpenseRow → Bool}
    (laws : IsRepository repo rows matches) where
  module _ (id user_id : ℤ) (perms : List String) (w : World Db H) where
    -- The three ways in which a read ends, none of which changes the state.
    abbrev pub ReadOutcome : Result GoError Expense × World Db H → Type 0
    ReadOutcome r =
        ((x : GoError) × (repo.get_by_id id w.db ≡ err x)
          × (r ≡ (err (global expense_not_found), w)))
        ⊎ ((row : ExpenseRow) × (repo.get_by_id id w.db ≡ ok row)
            × (row.user_id ≢ user_id)
            × (can_view_all_expenses perms ≡ false)
            × (r ≡ (err (global unauthorized_access), w)))
        ⊎ ((row : ExpenseRow) × (find (has_id id) (rows w.db) ≡ some row)
            × ((row.user_id ≡ user_id) ⊎ (can_view_all_expenses perms ≡ true))
            × (r ≡ (ok (from_data_model row), w)))

    read_found :
        (row : ExpenseRow)
        → repo.get_by_id id w.db ≡ ok row
        → ReadOutcome (get_expense_by_id repo processor bus id user_id perms w)
    unfolding get_expense_by_id from_data_model
    read_found row found = elim (Bool-cases (eq_ℤ row.user_id user_id)) [
      | inl own ↦ inr (
          inr (
            row,
            laws.get_by_id_ok id w.db row found,
            inl ((eq_ℤ_iff row.user_id user_id).0 own),
            rw (found, own),
          ))
      | inr other ↦ elim (Bool-cases (can_view_all_expenses perms)) [
        | inl all' ↦
            inr (inr (row, laws.get_by_id_ok id w.db row found, inr all', rw (found, other, all')))
        | inr denied ↦ inr (
            inl (
              row,
              found,
              λ e. cc (other, (eq_ℤ_iff row.user_id user_id).1 e),
              denied,
              rw (found, other, denied),
            ))
      ]
    ]

    -- For every expense repository that keeps its laws, reading an expense never changes the
    -- state, and ends in one of three ways: every error of the repository is answered as not
    -- found; an expense of another user is refused as unauthorized to a user who may not view all
    -- expenses; and an expense is answered only if it is the first stored one with the id and the
    -- user owns it or may view all.
    pub get_expense_by_id_outcome :
        ReadOutcome (get_expense_by_id repo processor bus id user_id perms w)
    unfolding get_expense_by_id
    get_expense_by_id_outcome = elim (Result-cases (repo.get_by_id id w.db)) [
      | inr (x, missing) ↦ inl (x, missing, rw missing)
      | inl (row, found) ↦ read_found row found
    ]

    read_keeps : (get_expense_by_id repo processor bus id user_id perms w).1 ≡ w
    read_keeps = elim get_expense_by_id_outcome [
      | inl (x, missing, e) ↦ rw e
      | inr (inl (row, found, other, denied, e)) ↦ rw e
      | inr (inr (row, found, allowed, e)) ↦ rw e
    ]

  module _ (env : Env) (id : ℤ) (status : String) (user_id : ℤ) (perms : List String)
      (w : World Db H) where
    -- The state after the write, and before the read that follows it.
    abbrev pub written : World Db H
    written = record w { db = (repo.update_status id status (env.clock 0) (env.clock 1) w.db).1 }

    -- The write fails and changes nothing, or it is done, and then the expense is read for the user.
    abbrev pub StatusOutcome : Result GoError Expense × World Db H → Type 0
    StatusOutcome r =
        ((x : GoError) × ((repo.update_status id status (env.clock 0) (env.clock 1) w.db).0 ≡ err x)
          × (r.0 ≡ err x)
          × IsUntouched rows w r.1)
        ⊎ ((rows r.1.db
              ≡ update_where (has_id id) (set_status status (env.clock 0) (env.clock 1))
                  (rows w.db))
            × (r.1.spawned ≡ w.spawned)
            × (r.1.job_queue ≡ w.job_queue)
            × ReadOutcome id user_id perms written r)

    -- For every expense repository that keeps its laws, a change of status either fails to write,
    -- answers an error and changes nothing, or it has set the status of the rows with the id,
    -- started no goroutine and queued no job, and the answer is that of reading the expense for
    -- the user afterwards: also where that answer is unauthorized, the status has been changed.
    pub update_expense_status_outcome :
        StatusOutcome (update_expense_status repo processor bus env id status user_id perms w)
    unfolding update_expense_status
    update_expense_status_outcome =
        let stored = repo.update_status id status (env.clock 0) (env.clock 1) in
        elim (Result-cases (stored w.db).0) [
          | inr (x, failed) ↦ rw (on_db-bind_err _ w stored failed) (
              inl (
                x,
                failed,
                refl,
                (
                  laws.update_status_err id status (env.clock 0) (env.clock 1) w.db x failed,
                  refl,
                  refl,
                ),
              ))
          | inl (u, done) ↦
              let keeps = read_keeps id user_id perms written in
              rw (on_db-bind_ok _ w stored done) (
                inr (
                  ap (λ v. rows v.db) keeps
                      ∙ laws.update_status_ok id status (env.clock 0) (env.clock 1) w.db done,
                  ap (λ v. v.spawned) keeps,
                  ap (λ v. v.job_queue) keeps,
                  get_expense_by_id_outcome id user_id perms written,
                ))
        ]

  -- Submitting is a change of status to "submitted".
  submit_expense_for_approval_outcome :
      (env : Env) (id user_id : ℤ) (perms : List String) (w : World Db H)
      → StatusOutcome env id "submitted" user_id perms w
          (submit_expense_for_approval repo processor bus env id user_id perms w)
  unfolding submit_expense_for_approval
  submit_expense_for_approval_outcome env id user_id perms w =
      update_expense_status_outcome env id "submitted" user_id perms w

  module _ (env : Env) (w : World Db H) where
    -- What a completed payment does to its expense, whatever the status of the expense was.
    abbrev pub CompletionOutcome :
        PaymentCompletedEvent → Result GoError (Unit {0}) × World Db H → Type 0
    CompletionOutcome e r =
        ((x : GoError) × ((repo.update_status e.expense_id "completed" (env.clock 0) (env.clock 1)
              w.db).0
            ≡ err x)
          × (r.0 ≡ err (wrap ("expense status update failed for expense " <> show e.expense_id) x))
          × IsUntouched rows w r.1)
        ⊎ ((r.0 ≡ ok tt)
            × (rows r.1.db
                ≡ update_where (has_id e.expense_id)
                    (set_status "completed" (env.clock 0) (env.clock 1)) (rows w.db))
            × (r.1.spawned ≡ w.spawned)
            × (r.1.job_queue ≡ w.job_queue))

    -- For every expense repository that keeps its laws, the handler of a payment.completed event
    -- either answers an error and changes nothing, or sets the expenses with the event's id to
    -- completed, whatever their status was, starting no goroutine and queueing no job.
    pub handle_payment_completed_outcome :
        (e : PaymentCompletedEvent)
        → CompletionOutcome e
            (handle_payment_completed repo processor bus env (payment_completed e) w)
    unfolding handle_payment_completed
    handle_payment_completed_outcome e =
        let stored = repo.update_status e.expense_id "completed" (env.clock 0) (env.clock 1) in
        elim (Result-cases (stored w.db).0) [
          | inr (x, failed) ↦ inl (
            x,
            failed,
            map_err-err _ (on_db stored) w failed,
            (
              laws.update_status_err e.expense_id "completed" (env.clock 0) (env.clock 1) w.db x
                  failed,
              refl,
              refl,
            ),
          )
          | inl (u, done) ↦ inr (
            map_err-ok _ (on_db stored) w done,
            laws.update_status_ok e.expense_id "completed" (env.clock 0) (env.clock 1) w.db done,
            refl,
            refl,
          )
        ]
