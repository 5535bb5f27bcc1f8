-- ===== src/Expense/Service/Creation.antt =====
-- What creating an expense does, on every branch of internal/expense/service.go.
use expense_management.Prelude.{
  Bool, List, [], ◌∷◌, ◌++◌, none, some, ◌≡◌, refl, ◌∙◌, ◌⊎◌, inl, inr, Result-cases, Option-cases,
  Bool-cases, ℤ, pos, ltb_ℤ, find, Result, ok, err, arith, bind-ok, bind-err, map_err-ok,
  map_err-err, Exec, map_err, ◌>>=◌, ◌<ℤ◌, ◌≤ℤ◌,
}
use expense_management.Errors.{GoError, AppError, app, wrap}
use expense_management.Events.{Event, expense_approved, new_expense_approved_event}
use expense_management.Events.Bus.{EventBus, publish}
use expense_management.World.{World, IsUntouched, Env, on_db}
use expense_management.Expense.Dto.{CreateExpenseDto, validate_create}
use expense_management.Expense.Query.{ExpenseQueryParams}
use expense_management.Expense.Entity.{
  Expense, ExpenseRow, new_expense, approve, should_be_auto_approved, needs_payment_processing,
  to_data_model,
}
use expense_management.Expense.Repository.{RepositoryApi, IsRepository, has_id}
use expense_management.Expense.Service.{PaymentProcessorApi, create_expense, announce_created}

module _ {Db H View : Type 0} (repo : RepositoryApi Db)
    (processor : PaymentProcessorApi (World Db H) View) (bus : EventBus H)
    (rows : Db → List ExpenseRow) {matches : ExpenseQueryParams → ExpenseRow → Bool}
    (laws : IsRepository repo rows matches) (env : Env) (req : CreateExpenseDto) (user_id : ℤ)
    (w : World Db H) where
  -- The expense of an accepted request, before it has its id.
  abbrev pub created : Expense
  created = new_expense (env.clock 1) (env.clock 2) user_id req

  -- The goroutines that are started for an expense that is approved at once.
  abbrev pub started : ℤ → List (H × Event)
  started id =
      publish
        (expense_approved
          (new_expense_approved_event env.uuid (env.clock 3) id req.amount_idr user_id "IDR"))
        bus

  -- Below 1,000,000 rupiah the expense is approved and its event is published; from there on it
  -- waits for a manager.
  abbrev pub AutoApproval : ℤ → Expense → World Db H → Type 0
  AutoApproval id e v =
      ((req.amount_idr <ℤ pos 1000000)
        × (e.expense_status ≡ "approved")
        × (e.processed_at ≡ some (env.clock 2))
        × (v.spawned ≡ w.spawned ++ started id))
      ⊎ ((pos 1000000 ≤ℤ req.amount_idr)
          × (e.expense_status ≡ "pending_approval")
          × (e.processed_at ≡ none)
          × (v.spawned ≡ w.spawned))

  -- The three ways in which a creation ends.
  abbrev pub CreateOutcome : Result GoError Expense × World Db H → Type 0
  CreateOutcome r =
      ((x : AppError) × (validate_create (env.clock 0) req ≡ some x) × (r ≡ (err (app x), w)))
      ⊎ ((x : GoError) × (validate_create (env.clock 0) req ≡ none)
          × ((repo.create (to_data_model created) w.db).0 ≡ err x)
          × (r.0 ≡ err (wrap "failed to create expense" x))
          × IsUntouched rows w r.1)
      ⊎ ((id : ℤ) × (e : Expense) × (validate_create (env.clock 0) req ≡ none)
          × (r.0 ≡ ok e)
          × (e ≡ record created { id = id })
          × (find (has_id id) (rows w.db) ≡ none)
          × (rows r.1.db ≡ rows w.db ++ to_data_model e ∷ [])
          × (r.1.job_queue ≡ w.job_queue)
          × AutoApproval id e r.1)

  announced :
      (id : ℤ) (db : Db)
      → let s =
          announce_created repo processor bus env
            (record created { id = id })
            (record w { db = db }) in
        (s.0 ≡ ok (record created { id = id }))
        × (s.1.db ≡ db)
        × (s.1.job_queue ≡ w.job_queue)
        × AutoApproval id (record created { id = id }) s.1
  unfolding announce_created needs_payment_processing new_expense approve should_be_auto_approved
  announced id db = elim (Bool-cases (ltb_ℤ req.amount_idr (pos 1000000))) [
    | inl low ↦ rw low (refl, refl, refl, inl (ground arith, refl, refl, refl))
    | inr high ↦ rw high (refl, refl, refl, inr (ground arith, refl, refl, refl))
  ]

  -- What is left of the operation when the request is accepted.
  insert_created : Exec (World Db H) GoError ExpenseRow
  insert_created =
      map_err (wrap "failed to create expense") (on_db (repo.create (to_data_model created)))

  announce_row : ExpenseRow → Exec (World Db H) GoError Expense
  announce_row row = announce_created repo processor bus env (record created { id = row.id })

  accepted :
      validate_create (env.clock 0) req ≡ none
      → create_expense repo processor bus env req user_id w ≡ (insert_created >>= announce_row) w
  unfolding create_expense insert_created announce_row
  accepted valid' = rw valid'

  create_stored :
      (s : ExpenseRow)
      → validate_create (env.clock 0) req ≡ none
      → (repo.create (to_data_model created) w.db).0 ≡ ok s
      → create_expense repo processor bus env req user_id w
        ≡ announce_created repo processor bus env
            (record created { id = s.id })
            (record w { db = (repo.create (to_data_model created) w.db).1 })
  unfolding insert_created announce_row
  create_stored s valid' done =
      accepted valid'
      ∙ bind-ok insert_created announce_row w
          (map_err-ok _ (on_db (repo.create (to_data_model created))) w done)

  create_failed :
      (x : GoError)
      → validate_create (env.clock 0) req ≡ none
      → (repo.create (to_data_model created) w.db).0 ≡ err x
      → create_expense repo processor bus env req user_id w ≡ (
        err (wrap "failed to create expense" x),
        record w { db = (repo.create (to_data_model created) w.db).1 },
      )
  unfolding insert_created
  create_failed x valid' failed =
      accepted valid'
      ∙ bind-err insert_created announce_row w
          (map_err-err _ (on_db (repo.create (to_data_model created))) w failed)

  store_created :
      validate_create (env.clock 0) req ≡ none
      → CreateOutcome (create_expense repo processor bus env req user_id w)
  unfolding to_data_model
  store_created valid' =
      let row = to_data_model created in
      elim (Result-cases (repo.create row w.db).0) [
        | inr (x, failed) ↦
            rw (create_failed x valid' failed)
              (inr (inl (x, valid', failed, refl, (laws.create_err row w.db x failed, refl, refl))))
        | inl (s, done) ↦
            let (id, key, new, there) = laws.create_ok row s w.db done in
            let (result, same_db, queue, auto) = announced s.id (repo.create row w.db).1 in
            let same : s.id ≡ id = rw key in
            rw (create_stored s valid' done) (
              inr (
                inr (
                  s.id,
                  record created { id = s.id },
                  valid',
                  result,
                  refl,
                  rw same new,
                  rw same_db (rw (there, key)),
                  queue,
                  auto,
                )))
      ]

  -- For every expense repository that keeps its laws, a creation ends in one of three ways. A
  -- request that is not valid gets the validation's error and changes nothing; if the repository
  -- cannot store the expense the answer is that error, wrapped, and the rows, the goroutines and
  -- the job queue are as they were; otherwise one row is appended, under an id that no row had,
  -- which is the expense that is answered, and below 1,000,000 rupiah it is approved and the
  -- goroutines of its expense.approved event are started, while from there on it is pending,
  -- unprocessed, and nothing is started.
  pub create_expense_outcome : CreateOutcome (create_expense repo processor bus env req user_id w)
  unfolding create_expense
  create_expense_outcome = elim (Option-cases (validate_create (env.clock 0) req)) [
    | inl valid' ↦ store_created valid'
    | inr (x, refused) ↦ inl (x, refused, rw refused)
  ]
