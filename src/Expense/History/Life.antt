-- ===== src/Expense/History/Life.antt =====
-- The life of an expense over a sequence of calls of internal/expense/service.go.
use expense_management.Prelude.{
  Bool, true, false, String, List, [], ◌∷◌, ◌++◌, some, ◌≡◌, refl, ◌⊎◌, inl, inr, ◌≢◌, ℤ, find,
  update_where, find-update_where, find-append, find_sound, arith, Bool-cases, eq_ℤ, eq_ℤ_iff,
}
use expense_management.Events.Bus.{EventBus}
use expense_management.World.{World}
use expense_management.Expense.Query.{ExpenseQueryParams}
use expense_management.Expense.Entity.{ExpenseRow, approve, reject, to_data_model, from_data_model}
use expense_management.Expense.Repository.{RepositoryApi, IsRepository, has_id, set_status}
use expense_management.Expense.Service.{PaymentProcessorApi}
use expense_management.Expense.Service.Creation.{create_expense_outcome}
use expense_management.Expense.Service.Approval.{approve_expense_outcome, approved_row}
use expense_management.Expense.Service.Rejection.{reject_expense_outcome, rejected_row}
use expense_management.Expense.Service.Access.{handle_payment_completed_outcome}
use expense_management.Expense.History.{
  Call, created, approved, rejected, completed, elsewhere, Calls, start, next,
}

-- How the status of an expense may move on.
abbrev pub MovesOn : String → String → Type 0
MovesOn before after =
    (after ≡ before)
    ⊎ (after ≡ "completed")
    ⊎ ((before ≡ "pending_approval") × ((after ≡ "approved") ⊎ (after ≡ "rejected")))

-- What a later row has of an earlier one.
abbrev pub Continues : ExpenseRow → ExpenseRow → Type 0
Continues r q =
    MovesOn r.expense_status q.expense_status
    × (q.user_id ≡ r.user_id)
    × (q.amount_idr ≡ r.amount_idr)
    × (q.description ≡ r.description)
    × (q.category ≡ r.category)
    × (q.submitted_at ≡ r.submitted_at)

MovesOn-trans : (a b c : String) → MovesOn a b → MovesOn b c → MovesOn a c
MovesOn-trans a b c (inl e) h = rw e at h
MovesOn-trans a b c (inr l) (inl e) = rw e (inr l)
MovesOn-trans a b c (inr l) (inr (inl e)) = inr (inl e)
MovesOn-trans a b c (inr (inl e)) (inr (inr (k, m))) = absurd cc
MovesOn-trans a b c (inr (inr (k, inl e))) (inr (inr (l, m))) = absurd cc
MovesOn-trans a b c (inr (inr (k, inr e))) (inr (inr (l, m))) = absurd cc

Continues-trans : (r q s : ExpenseRow) → Continues r q → Continues q s → Continues r s
Continues-trans r q s h k =
    (MovesOn-trans r.expense_status q.expense_status s.expense_status h.0 k.0, cc, cc, cc, cc, cc)

Continues-refl : (r : ExpenseRow) → Continues r r
Continues-refl r = (inl refl, refl, refl, refl, refl, refl)

ne_eq_ℤ : (a b : ℤ) → a ≢ b → eq_ℤ a b ≡ false
ne_eq_ℤ a b other = ground (arith, eq_ℤ_iff a b)

-- A rewrite of rows with another id does not touch what is found.
find-elsewhere :
    (id k : ℤ) (f : ExpenseRow → ExpenseRow) (xs : List ExpenseRow)
    → ((a : ExpenseRow) → eq_ℤ a.id k ≡ true → (f a).id ≡ k)
    → k ≢ id
    → find (has_id id) (update_where (has_id k) f xs) ≡ find (has_id id) xs
find-elsewhere id k f [] keep other = refl
find-elsewhere id k f (x ∷ xs) keep other =
    let rest = find-elsewhere id k f xs keep other in
    elim (Bool-cases (eq_ℤ x.id k)) [
      | inl yes' ↦
          let same : x.id ≡ k = (eq_ℤ_iff x.id k).0 yes' in
          let before : eq_ℤ x.id id ≡ false = rw same (ne_eq_ℤ k id other) in
          let after : eq_ℤ (f x).id id ≡ false = rw (keep x yes') (ne_eq_ℤ k id other) in
          rw (yes', before, after) rest
      | inr no' ↦ rw (no', rest) refl
    ]

-- Every expense that is found before is found after, and continued.
abbrev pub Continued : List ExpenseRow → List ExpenseRow → Type 0
Continued xs ys =
    (id : ℤ) (r : ExpenseRow)
    → find (has_id id) xs ≡ some r
    → (q : ExpenseRow) × (find (has_id id) ys ≡ some q) × Continues r q

Continued-trans : (xs ys zs : List ExpenseRow) → Continued xs ys → Continued ys zs → Continued xs zs
Continued-trans xs ys zs h k id r found =
    let (q, there, on) = h id r found in
    let (s, there', on') = k id q there in (s, there', Continues-trans r q s on on')

Continued-refl : (xs ys : List ExpenseRow) → ys ≡ xs → Continued xs ys
Continued-refl xs ys e id r found = (r, rw e found, Continues-refl r)

Continued-append : (xs ys : List ExpenseRow) → Continued xs (xs ++ ys)
Continued-append xs ys id r found = (r, find-append (has_id id) xs ys r found, Continues-refl r)

Continued-update_where :
    (k : ℤ) (f : ExpenseRow → ExpenseRow) (xs : List ExpenseRow)
    → ((a : ExpenseRow) → eq_ℤ a.id k ≡ true → (f a).id ≡ k)
    → ((a : ExpenseRow) → find (has_id k) xs ≡ some a → Continues a (f a))
    → Continued xs (update_where (has_id k) f xs)
Continued-update_where k f xs keep on id r found = elim (Bool-cases (eq_ℤ k id)) [
  | inr other ↦
      let apart : k ≢ id = λ e. cc (other, (eq_ℤ_iff k id).1 e) in
      (r, rw (find-elsewhere id k f xs keep apart) found, Continues-refl r)
  | inl yes' ↦
      let same : k ≡ id = (eq_ℤ_iff k id).0 yes' in
      let found' : find (has_id k) xs ≡ some r = rw same found in
      let still = (eq_ℤ_iff (f r).id k).1 (keep r (find_sound (has_id k) xs r found')) in
      (f r, rw (← same) (find-update_where (has_id k) f xs r found' still), on r found')
]

module _ {Db H View : Type 0} (repo : RepositoryApi Db)
    (processor : PaymentProcessorApi (World Db H) View) (bus : EventBus H)
    (rows : Db → List ExpenseRow) {matches : ExpenseQueryParams → ExpenseRow → Bool}
    (laws : IsRepository repo rows matches) where
  decided :
      (k : ℤ) (row next' : ExpenseRow) (xs ys : List ExpenseRow)
      → find (has_id k) xs ≡ some row
      → next'.id ≡ row.id
      → Continues row next'
      → ys ≡ update_where (has_id k) (λ q. next') xs
      → Continued xs ys
  decided k row next' xs ys found key on e =
      let there = (eq_ℤ_iff row.id k).0 (find_sound (has_id k) xs row found) in
      rw e (
        Continued-update_where k (λ q. next') xs (λ a h. cc)
          (λ a h. let same : row ≡ a = cc in rw (← same) on))

  Call-Continued :
      {w v : World Db H} → Call repo processor bus rows w v → Continued (rows w.db) (rows v.db)
  unfolding approve reject to_data_model from_data_model
  Call-Continued {w} (created env req user_id) =
      elim (create_expense_outcome repo processor bus rows laws env req user_id w) [
        | inl (x, h, e) ↦ rw e (Continued-refl (rows w.db) (rows w.db) refl)
        | inr (inl (x, h, f, e, u)) ↦ Continued-refl (rows w.db) _ u.0
        | inr (inr (id, e, h, done, made, new, there, queue, auto)) ↦
            rw there (Continued-append (rows w.db) _)
      ]
  Call-Continued {w} (approved env id manager_id perms) =
      elim (approve_expense_outcome repo processor bus rows laws env id manager_id perms w) [
        | inl (h, e) ↦ rw e (Continued-refl (rows w.db) (rows w.db) refl)
        | inr (inl (x, h, m, e)) ↦ rw e (Continued-refl (rows w.db) (rows w.db) refl)
        | inr (inr (inl (row, h, m, o, e))) ↦ rw e (Continued-refl (rows w.db) (rows w.db) refl)
        | inr (inr (inr (inl (row, x, h, m, o, f, e, u)))) ↦ Continued-refl (rows w.db) _ u.0
        | inr (inr (inr (inr (row, h, found, pending, e, there, spawned, queue)))) ↦
            decided id row (approved_row repo processor bus rows laws env row) (rows w.db) _ found
              refl (inr (inr (pending, inl refl)), refl, refl, refl, refl, refl) there
      ]
  Call-Continued {w} (rejected env id manager_id reason perms) =
      elim (reject_expense_outcome repo processor bus rows laws env id manager_id reason perms w) [
        | inl (h, e) ↦ rw e (Continued-refl (rows w.db) (rows w.db) refl)
        | inr (inl (x, h, m, e)) ↦ rw e (Continued-refl (rows w.db) (rows w.db) refl)
        | inr (inr (inl (row, h, m, o, e))) ↦ rw e (Continued-refl (rows w.db) (rows w.db) refl)
        | inr (inr (inr (inl (row, x, h, m, o, f, e, u)))) ↦ Continued-refl (rows w.db) _ u.0
        | inr (inr (inr (inr (row, h, found, pending, e, there, spawned, queue)))) ↦
            decided id row
              (rejected_row repo processor bus rows laws env id manager_id reason perms w row)
              (rows w.db) _ found refl (inr (inr (pending, inr refl)), refl, refl, refl, refl, refl)
              there
      ]
  Call-Continued {w} (completed env e) =
      elim (handle_payment_completed_outcome repo processor bus rows laws env w e) [
        | inl (x, h, f, u) ↦ Continued-refl (rows w.db) _ u.0
        | inr (done, there, spawned, queue) ↦ rw there (
            Continued-update_where e.expense_id (set_status "completed" (env.clock 0) (env.clock 1))
              (rows w.db) (λ a h. (eq_ℤ_iff a.id e.expense_id).0 h)
              (λ a h. (inr (inl refl), refl, refl, refl, refl, refl)))
      ]
  Call-Continued {w} (elsewhere e) = Continued-refl (rows w.db) _ e

  calls-Continued :
      {w v : World Db H} → Calls repo processor bus rows w v → Continued (rows w.db) (rows v.db)
  calls-Continued {w} start = Continued-refl (rows w.db) (rows w.db) refl
  calls-Continued {w} {v} (next {u} before step) =
      Continued-trans (rows w.db) (rows u.db) (rows v.db) (calls-Continued before)
        (Call-Continued step)

  -- For every expense repository that keeps its laws, and every sequence of creations, approvals,
  -- rejections and completed payments, with any arguments and whether they succeed or fail, and
  -- of calls that leave the expenses alone: an expense that is found under an id before it is
  -- found under the id after it, with the same owner, amount, description, category and time of
  -- submission, and its status is the same, or is completed, or was pending and is approved or
  -- rejected. So no expense is lost, none goes back to pending, and none goes from approved to
  -- rejected or from rejected to approved.
  pub calls-Continues :
      {w v : World Db H}
      → Calls repo processor bus rows w v
      → (id : ℤ) (r : ExpenseRow) → find (has_id id) (rows w.db) ≡ some r
      → (q : ExpenseRow) × (find (has_id id) (rows v.db) ≡ some q) × Continues r q
  calls-Continues calls id r found = calls-Continued calls id r found
