-- ===== src/Expense/History/Settled.antt =====
-- What holds of every stored expense, whatever calls of internal/expense/service.go were made.
use expense_management.Prelude.{
  Bool, Bool-cases, ltb_ℤ, ℕ, List, none, some, ◌≡◌, refl, ◌⊎◌, inl, inr, ℤ, pos, ◌≤ℤ◌, find,
  update_where, All, All-append, All-find, All-update_where,
}
use expense_management.Events.Bus.{EventBus}
use expense_management.World.{World, Env}
use expense_management.Expense.Dto.{CreateExpenseDto}
use expense_management.Expense.Dto.Laws.{validate_create_iff}
use expense_management.Expense.Query.{ExpenseQueryParams}
use expense_management.Expense.Entity.{
  ExpenseRow, approve, reject, new_expense, should_be_auto_approved, to_data_model, from_data_model,
}
use expense_management.Expense.Repository.{RepositoryApi, IsRepository, has_id, set_status}
use expense_management.Expense.Service.{PaymentProcessorApi, create_expense}
use expense_management.Expense.Service.Creation.{CreateOutcome, create_expense_outcome}
use expense_management.Expense.Service.Approval.{approve_expense_outcome, approved_row}
use expense_management.Expense.Service.Rejection.{reject_expense_outcome, rejected_row}
use expense_management.Expense.Service.Access.{handle_payment_completed_outcome}
use expense_management.Expense.History.{
  Call, created, approved, rejected, completed, elsewhere, Calls, start, next,
}

-- Nobody has decided on the expense yet.
abbrev pub IsWaiting : ExpenseRow → Type 0
IsWaiting r =
    (r.expense_status ≡ "pending_approval")
    × (pos 1000000 ≤ℤ r.amount_idr)
    × (r.processed_at ≡ none)

abbrev pub IsProcessed : ExpenseRow → Type 0
IsProcessed r =
    ((r.expense_status ≡ "approved")
      ⊎ (r.expense_status ≡ "rejected")
      ⊎ (r.expense_status ≡ "completed"))
    × ((t : ℕ) × (r.processed_at ≡ some t))

abbrev pub IsSettled : ExpenseRow → Type 0
IsSettled r =
    (pos 10000 ≤ℤ r.amount_idr) × (r.amount_idr ≤ℤ pos 50000000) × (IsWaiting r ⊎ IsProcessed r)

new_expense-amount_idr :
    (now later : ℕ) (user_id : ℤ) (req : CreateExpenseDto)
    → (new_expense now later user_id req).amount_idr ≡ req.amount_idr
unfolding new_expense approve should_be_auto_approved
new_expense-amount_idr now later user_id req =
    elim (Bool-cases (ltb_ℤ req.amount_idr (pos 1000000))) [
      | inl low ↦ rw low refl
      | inr high ↦ rw high refl
    ]

module _ {Db H View : Type 0} (repo : RepositoryApi Db)
    (processor : PaymentProcessorApi (World Db H) View) (bus : EventBus H)
    (rows : Db → List ExpenseRow) {matches : ExpenseQueryParams → ExpenseRow → Bool}
    (laws : IsRepository repo rows matches) where
  -- A rewrite of the rows with an id by the row that was found there, decided.
  decided :
      (k : ℤ) (row next' : ExpenseRow) (xs ys : List ExpenseRow)
      → find (has_id k) xs ≡ some row
      → next'.amount_idr ≡ row.amount_idr
      → IsProcessed next'
      → ys ≡ update_where (has_id k) (λ q. next') xs
      → All IsSettled xs
      → All IsSettled ys
  decided k row next' xs ys found amount on e all =
      let (least, most, rest) = All-find IsSettled (has_id k) xs row found all in
      rw e (
        All-update_where IsSettled (has_id k) (λ q. next') xs
          (λ a h. (rw amount least, rw amount most, inr on)) all)

  created-IsSettled :
      (env : Env) (req : CreateExpenseDto) (user_id : ℤ) (w : World Db H)
      → All IsSettled (rows w.db)
      → CreateOutcome repo processor bus rows laws env req user_id w
          (create_expense repo processor bus env req user_id w)
      → All IsSettled (rows (create_expense repo processor bus env req user_id w).1.db)
  unfolding to_data_model
  created-IsSettled env req user_id w all (inl (x, h, e)) = rw e all
  created-IsSettled env req user_id w all (inr (inl (x, h, f, e, u))) = rw u.0 all
  created-IsSettled env req user_id w all
        (inr (inr (id, e, valid', done, made, new, there, queue, auto))) =
      let ok' = (validate_create_iff (env.clock 0) req).0 valid' in
      let amount : e.amount_idr ≡ req.amount_idr =
        rw made (new_expense-amount_idr (env.clock 1) (env.clock 2) user_id req) in
      let state : IsWaiting (to_data_model e) ⊎ IsProcessed (to_data_model e) = elim auto [
        | inl (low, status, at, spawned) ↦ inr (inl status, (env.clock 2, at))
        | inr (high, status, at, spawned) ↦ inl (status, rw amount high, at)
      ] in
      rw there (
        All-append IsSettled (rows w.db) _ all
          ((rw amount ok'.least, rw amount ok'.most, state), tt))

  Call-IsSettled :
      {w v : World Db H}
      → Call repo processor bus rows w v
      → All IsSettled (rows w.db)
      → All IsSettled (rows v.db)
  unfolding approve reject to_data_model from_data_model
  Call-IsSettled {w} (created env req user_id) all =
      created-IsSettled env req user_id w all
        (create_expense_outcome repo processor bus rows laws env req user_id w)
  Call-IsSettled {w} (approved env id manager_id perms) all =
      elim (approve_expense_outcome repo processor bus rows laws env id manager_id perms w) [
        | inl (h, e) ↦ rw e all
        | inr (inl (x, h, m, e)) ↦ rw e all
        | inr (inr (inl (row, h, m, o, e))) ↦ rw e all
        | inr (inr (inr (inl (row, x, h, m, o, f, e, u)))) ↦ rw u.0 all
        | inr (inr (inr (inr (row, h, found, pending, e, there, spawned, queue)))) ↦
            decided id row (approved_row repo processor bus rows laws env row) (rows w.db) _ found
              refl (inl refl, (env.clock 0, refl)) there all
      ]
  Call-IsSettled {w} (rejected env id manager_id reason perms) all =
      elim (reject_expense_outcome repo processor bus rows laws env id manager_id reason perms w) [
        | inl (h, e) ↦ rw e all
        | inr (inl (x, h, m, e)) ↦ rw e all
        | inr (inr (inl (row, h, m, o, e))) ↦ rw e all
        | inr (inr (inr (inl (row, x, h, m, o, f, e, u)))) ↦ rw u.0 all
        | inr (inr (inr (inr (row, h, found, pending, e, there, spawned, queue)))) ↦
            decided id row
              (rejected_row repo processor bus rows laws env id manager_id reason perms w row)
              (rows w.db) _ found refl (inr (inl refl), (env.clock 0, refl)) there all
      ]
  Call-IsSettled {w} (completed env e) all =
      elim (handle_payment_completed_outcome repo processor bus rows laws env w e) [
        | inl (x, h, f, u) ↦ rw u.0 all
        | inr (done, there, spawned, queue) ↦ rw there (
            All-update_where IsSettled (has_id e.expense_id)
              (set_status "completed" (env.clock 0) (env.clock 1)) (rows w.db)
              (λ a (least, most, rest). (least, most, inr (inr (inr refl), (env.clock 0, refl))))
              all)
      ]
  Call-IsSettled (elsewhere e) all = rw e all

  -- For every expense repository that keeps its laws, and every sequence of creations, approvals,
  -- rejections and completed payments, with any arguments and whether they succeed or fail, and
  -- of calls that leave the expenses alone: if before it every stored expense is of 10,000 to
  -- 50,000,000 rupiah, and is either pending, of 1,000,000 rupiah or more and unprocessed, or
  -- else approved, rejected or completed with a time of processing, then after it every stored
  -- expense is so too.
  pub calls-IsSettled :
      {w v : World Db H}
      → Calls repo processor bus rows w v
      → All IsSettled (rows w.db)
      → All IsSettled (rows v.db)
  calls-IsSettled start all = all
  calls-IsSettled (next before step) all = Call-IsSettled step (calls-IsSettled before all)
