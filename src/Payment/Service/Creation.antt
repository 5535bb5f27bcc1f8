-- ===== src/Payment/Service/Creation.antt =====
-- What creating a payment does, on every branch of internal/payment/service.go.
use expense_management.Prelude.{
  ℕ, String, List, [], ◌∷◌, ◌++◌, none, some, ◌≡◌, refl, ◌⊎◌, inl, inr, subst, Result-cases, ℤ,
  find, Result, ok, err, map_err-ok, map_err-err, ◌<>◌,
}
use expense_management.Errors.{GoError, msg, wrap}
use expense_management.World.{World, Env, IsUntouched, on_db}
use expense_management.Payment.Entity.{Payment, new_payment}
use expense_management.Payment.Repository.{RepositoryApi, IsRepository, has_id, has_external_id}
use expense_management.Payment.Service.{create_payment, insert_payment}

module _ {Db H : Type 0} (repository : RepositoryApi Db) (capacity : ℕ) (rows : Db → List Payment)
    (laws : IsRepository repository rows) (env : Env) (expense_id : ℤ) (external_id : String)
    (amount : ℤ) (w : World Db H) where
  -- The three ways in which a creation ends.
  abbrev pub CreateOutcome : Result GoError Payment × World Db H → Type 0
  CreateOutcome r =
      ((existing : Payment) × (find (has_external_id external_id) (rows w.db) ≡ some existing)
        × (r ≡ (err (msg ("external_id " <> external_id <> " already exists")), w)))
      ⊎ ((x : GoError) × ((repository.create
              (new_payment (env.clock 0) expense_id external_id amount) w.db).0
            ≡ err x)
          × (r.0 ≡ err (wrap "failed to create payment record" x))
          × IsUntouched rows w r.1)
      ⊎ ((id : ℤ) × (p : Payment) × (x : GoError) × (repository.get_by_external_id external_id w.db
            ≡ err x)
          × (r.0 ≡ ok p)
          × (p ≡ record (new_payment (env.clock 0) expense_id external_id amount) { id = id })
          × (find (has_id id) (rows w.db) ≡ none)
          × (rows r.1.db ≡ rows w.db ++ p ∷ [])
          × (r.1.spawned ≡ w.spawned)
          × (r.1.job_queue ≡ w.job_queue))

  insert_outcome :
      (x : GoError)
      → repository.get_by_external_id external_id w.db ≡ err x
      → CreateOutcome (insert_payment repository capacity env expense_id external_id amount w)
  unfolding insert_payment
  insert_outcome x absent =
      let p = new_payment (env.clock 0) expense_id external_id amount in
      elim (Result-cases (repository.create p w.db).0) [
        | inr (y, failed) ↦ inr (
            inl (
              y,
              failed,
              map_err-err _ (on_db (repository.create p)) w failed,
              (laws.create_err p w.db y failed, refl, refl),
            ))
        | inl (q, done) ↦
            let (id, key, new, there) = laws.create_ok p q w.db done in
            inr (
              inr (
                id,
                q,
                x,
                absent,
                map_err-ok _ (on_db (repository.create p)) w done,
                key,
                new,
                there,
                refl,
                refl,
              ))
      ]

  insert_absent :
      (x : GoError)
      → repository.get_by_external_id external_id w.db ≡ err x
      → insert_payment repository capacity env expense_id external_id amount w
        ≡ create_payment repository capacity env expense_id external_id amount w
  unfolding create_payment
  insert_absent x absent = rw absent refl

  -- For every payment repository that keeps its laws, creating a payment ends in one of three
  -- ways. If a payment with the external id is found, the answer is the error that it already
  -- exists and the state is as it was; if the insertion fails, the answer is that error, wrapped,
  -- and nothing has changed; otherwise the lookup gave an error of any kind, and one pending
  -- payment without retries is appended, under an id that no payment had.
  pub create_payment_outcome :
      CreateOutcome (create_payment repository capacity env expense_id external_id amount w)
  unfolding create_payment
  create_payment_outcome = elim (Result-cases (repository.get_by_external_id external_id w.db)) [
    | inl (existing, present) ↦
        inl
          (existing, laws.get_by_external_id_ok external_id w.db existing present, rw present refl)
    | inr (x, absent) ↦ subst CreateOutcome (insert_absent x absent) (insert_outcome x absent)
  ]

  -- A payment that is found is not made again.
  pub create_payment_present :
      (p : Payment)
      → repository.get_by_external_id external_id w.db ≡ ok p
      → create_payment repository capacity env expense_id external_id amount w
        ≡ (err (msg ("external_id " <> external_id <> " already exists")), w)
  unfolding create_payment
  create_payment_present p present = rw present refl
