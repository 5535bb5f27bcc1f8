-- ===== src/Payment/Service/Processing.antt =====
-- What processing a payment does, on every branch of internal/payment/service.go.
use expense_management.Prelude.{
  ℕ, String, List, [], ◌∷◌, ◌++◌, none, some, ◌≡◌, refl, ◌⊎◌, inl, inr, subst, Result-cases, ℤ,
  find, update_where, Result, ok, err, length, ◌<◌,
}
use expense_management.Errors.{GoError, wrap, error_text}
use expense_management.World.{World, Env}
use expense_management.Gateway.Types.{PaymentData, PaymentJob}
use expense_management.Gateway.Client
use expense_management.Gateway.Client.{initiate_payment}
use expense_management.Gateway.Client.Laws.{PaymentIdSource, process_payment_outcome}
use expense_management.Payment.Entity.{Payment, response_json, map_external_status}
use expense_management.Payment.Dto.{PaymentRequest, PaymentResponse}
use expense_management.Payment.Repository.{
  RepositoryApi, IsRepository, StatusUpdate, has_id, has_external_id, apply_update,
}
use expense_management.Payment.Service.{process_payment, process_found, record_outcome}

module _ {Db H : Type 0} (repository : RepositoryApi Db) (capacity : ℕ) (rows : Db → List Payment)
    (laws : IsRepository repository rows) (env : Env) (req : PaymentRequest) (w : World Db H) where
  -- The update of the status that the repository makes of the database.
  abbrev pub written : ℤ → StatusUpdate → Result GoError (Unit {0}) × Db
  written id u = repository.update_status id u (env.clock 1) (env.clock 2) w.db

  -- The update of the status was made: its rows are changed if the repository reports success, and
  -- none is if it reports an error.
  abbrev pub Written : ℤ → StatusUpdate → Db → Type 0
  Written id u db =
      (db ≡ (written id u).1)
      × (((written id u).0 ≡ ok tt)
            × (rows db
                ≡ update_where (has_id id) (apply_update u (env.clock 1) (env.clock 2)) (rows w.db))
          ⊎ (x : GoError) × ((written id u).0 ≡ err x) × (rows db ≡ rows w.db))

  is_written : (id : ℤ) (u : StatusUpdate) → Written id u (written id u).1
  is_written id u = (
    refl,
    elim (Result-cases (written id u).0) [
      | inl (t, done) ↦ inl (done, laws.update_status_ok id u (env.clock 1) (env.clock 2) w.db done)
      | inr (x, failed) ↦
          inr (x, failed, laws.update_status_err id u (env.clock 1) (env.clock 2) w.db x failed)
    ],
  )

  -- What the gateway's client makes of the request, and of the job queue.
  abbrev pub answered : Result GoError PaymentData × List PaymentJob
  answered =
      Client.process_payment capacity env.api
        (record { external_id = req.external_id; amount = req.amount; currency = "IDR" })
        w.job_queue

  abbrev pub failure : GoError → StatusUpdate
  failure e = record {
    status = "failed";
    payment_method = none;
    gateway_response = none;
    failure_reason = some (error_text e);
  }

  abbrev pub acceptance : PaymentData → StatusUpdate
  acceptance answer = record {
    status = "pending";
    payment_method = none;
    gateway_response = some (response_json answer);
    failure_reason = none;
  }

  -- The three ways in which a payment is processed.
  abbrev pub ProcessOutcome : Result GoError PaymentResponse × World Db H → Type 0
  ProcessOutcome r =
      ((x : GoError) × (repository.get_by_external_id req.external_id w.db ≡ err x)
        × (r ≡ (err (wrap "payment record not found" x), w)))
      ⊎ ((p : Payment) × (x : GoError) × (find (has_external_id req.external_id) (rows w.db)
            ≡ some p)
          × (answered.0 ≡ err x)
          × (r.0 ≡ err (wrap "payment processing failed" x))
          × (r.1.job_queue ≡ w.job_queue)
          × (r.1.spawned ≡ w.spawned)
          × Written p.id (failure x) r.1.db)
      ⊎ ((p : Payment) × (answer : PaymentData) × (job : PaymentJob) × (find
              (has_external_id req.external_id) (rows w.db)
            ≡ some p)
          × (r.0
              ≡ ok (record { id = answer.id; external_id = req.external_id; status = "pending" }))
          × (length w.job_queue < capacity)
          × (r.1.job_queue ≡ w.job_queue ++ job ∷ [])
          × (job.external_id ≡ req.external_id)
          × (job.amount ≡ req.amount)
          × (job.payment_id ≡ answer.id)
          × (r.1.spawned ≡ w.spawned)
          × Written p.id (acceptance answer) r.1.db
          × (answered ≡ (ok answer, r.1.job_queue))
          × PaymentIdSource req.external_id (initiate_payment env.api) answer.id)

  as_pending : (status : String) → status ≡ "PENDING" → map_external_status status ≡ "pending"
  unfolding map_external_status
  as_pending status e = rw e refl

  found_outcome :
      (p : Payment)
      → find (has_external_id req.external_id) (rows w.db) ≡ some p
      → ProcessOutcome (process_found repository capacity env req p w)
  unfolding process_found record_outcome
  found_outcome p there =
      elim (process_payment_outcome capacity env.api
        (record { external_id = req.external_id; amount = req.amount; currency = "IDR" })
        w.job_queue) [
          | inl (e, invalid, same) ↦
              rw same (inr (inl (p, _, there, refl, refl, refl, refl, is_written p.id (failure _))))
          | inr (inl (valid', full, same)) ↦
              rw same (inr (inl (p, _, there, refl, refl, refl, refl, is_written p.id (failure _))))
          | inr
                (inr (
                  answer, job, valid', room, same, pending, for_answer, for_job, amount, id, source,
                )) ↦
              rw (same, as_pending answer.status pending)
                (inr (
                  inr (
                    p,
                    answer,
                    job,
                    there,
                    rw for_answer refl,
                    room,
                    refl,
                    for_job,
                    amount,
                    id,
                    refl,
                    is_written p.id (acceptance answer),
                    refl,
                    source,
                  )))
        ]

  process_present :
      (p : Payment)
      → repository.get_by_external_id req.external_id w.db ≡ ok p
      → process_found repository capacity env req p w
        ≡ process_payment repository capacity env req w
  unfolding process_payment
  process_present p present = rw present refl

  -- For every payment repository that keeps its laws, processing a payment ends in one of three
  -- ways. If the external id cannot be looked up, the state is as it was. If the gateway's client
  -- gives an error, that error is answered, wrapped, no job is queued, and the update that marks
  -- the payment failed with the error's text is made. If the client gives an answer, the queue
  -- had room, exactly one job with the external id, the amount and the answer's payment id is
  -- appended to it, that id is the one that the gateway gave or, if it gave an error, the
  -- fallback, the service answers pending under it, and the update that marks the payment pending
  -- with the client's answer is made. In both cases no goroutine is started, the database is the
  -- one that the update leaves, and the rows of the payment are changed if the repository reports
  -- success, and no row is if it reports an error, which is not answered.
  pub process_payment_ends : ProcessOutcome (process_payment repository capacity env req w)
  unfolding process_payment
  process_payment_ends = elim (Result-cases (repository.get_by_external_id req.external_id w.db)) [
    | inr (x, missing) ↦ inl (x, missing, rw missing refl)
    | inl (p, present) ↦
        subst ProcessOutcome (process_present p present)
          (found_outcome p (laws.get_by_external_id_ok req.external_id w.db p present))
  ]
