-- ===== src/Payment/Webhook/Callback.antt =====
-- What a callback of the gateway does, on every branch of internal/payment/webhook_handler.go.
use expense_management.Prelude.{
  ℕ, List, ◌++◌, false, none, some, ◌≡◌, refl, ◌⊎◌, inl, inr, Result-cases, Bool-cases, ℤ, find,
  update_where, Result, ok, err, bind-ok, bind-err, map_err-ok, map_err-err, show, ◌<>◌, str_eq,
  eq_iff, Exec, map_err, ◌>>◌,
}
use expense_management.Errors.{GoError, wrap}
use expense_management.World.{World, Env, IsUntouched, on_db}
use expense_management.Events.{
  Event, payment_completed, payment_failed, new_payment_completed_event, new_payment_failed_event,
}
use expense_management.Events.Bus.{EventBus, publish}
use expense_management.Payment.Entity.{Payment, callback_json, map_external_status}
use expense_management.Payment.Repository.{
  RepositoryApi, IsRepository, StatusUpdate, has_id, has_external_id, apply_update,
}
use expense_management.Payment.Service.{get_payment_by_external_id, update_payment_status}
use expense_management.Payment.Webhook.{
  PaymentCallbackRequest, reason_of, announce, process_payment_callback,
}

module _ {Db H : Type 0} (repository : RepositoryApi Db) (capacity : ℕ) (bus : EventBus H)
    (rows : Db → List Payment) (laws : IsRepository repository rows) (env : Env)
    (req : PaymentCallbackRequest) (w : World Db H) where
  -- The change of a payment that a callback asks for.
  abbrev pub requested : StatusUpdate
  requested = record {
    status = map_external_status req.status;
    payment_method = none;
    gateway_response = some (
        callback_json req.gateway_payment_id req.status req.amount (env.clock 0)
          (reason_of req.failure_reason));
    failure_reason = reason_of req.failure_reason;
  }

  abbrev pub completed : Payment → List (H × Event)
  completed p =
      publish
        (payment_completed (
          new_payment_completed_event env.uuid (env.clock 3) (show p.id) p.expense_id
            req.external_id req.amount (map_external_status req.status) req.gateway_payment_id))
        bus

  abbrev pub failed' : Payment → List (H × Event)
  failed' p =
      publish
        (payment_failed (
          new_payment_failed_event env.uuid (env.clock 3) (show p.id) p.expense_id req.external_id
            req.amount req.failure_reason p.retry_count))
        bus

  -- The event that follows the new status; none follows any other than success and failure.
  abbrev pub Announced : Payment → World Db H → Type 0
  Announced p v =
      ((map_external_status req.status ≡ "success") × (v.spawned ≡ w.spawned ++ completed p))
      ⊎ ((map_external_status req.status ≡ "failed") × (v.spawned ≡ w.spawned ++ failed' p))
      ⊎ ((str_eq (map_external_status req.status) "success" ≡ false)
          × (str_eq (map_external_status req.status) "failed" ≡ false)
          × (v.spawned ≡ w.spawned))

  -- The three ways in which a callback ends.
  abbrev pub CallbackOutcome : Result GoError (Unit {0}) × World Db H → Type 0
  CallbackOutcome r =
      ((x : GoError) × (repository.get_by_external_id req.external_id w.db ≡ err x)
        × (r ≡ (err (wrap ("payment not found for external_id " <> req.external_id) x), w)))
      ⊎ ((p : Payment) × (x : GoError) × (find (has_external_id req.external_id) (rows w.db)
            ≡ some p)
          × ((repository.update_status p.id requested (env.clock 1) (env.clock 2) w.db).0 ≡ err x)
          × (r.0 ≡ err (wrap "failed to update payment status" x))
          × IsUntouched rows w r.1)
      ⊎ ((p : Payment) × (find (has_external_id req.external_id) (rows w.db) ≡ some p)
          × (r.0 ≡ ok tt)
          × (rows r.1.db
              ≡ update_where (has_id p.id) (apply_update requested (env.clock 1) (env.clock 2))
                  (rows w.db))
          × (r.1.job_queue ≡ w.job_queue)
          × Announced p r.1)

  announced :
      (p : Payment) (db : Db)
      → let s =
          announce repository capacity bus env req p
            (map_external_status req.status)
            (record w { db = db }) in
        (s.0 ≡ ok tt) × (s.1.db ≡ db) × (s.1.job_queue ≡ w.job_queue) × Announced p s.1
  unfolding announce
  announced p db = elim (Bool-cases (str_eq (map_external_status req.status) "success")) [
    | inl good ↦
        rw good
          (refl, refl, refl, inl ((eq_iff (map_external_status req.status) "success").0 good, refl))
    | inr other ↦ elim (Bool-cases (str_eq (map_external_status req.status) "failed")) [
      | inl bad ↦
          rw (other, bad)
            (
              refl,
              refl,
              refl,
              inr (inl ((eq_iff (map_external_status req.status) "failed").0 bad, refl)),
            )
      | inr unknown ↦ rw (other, unknown) (refl, refl, refl, inr (inr (refl, refl, refl)))
    ]
  ]

  store_requested : ℤ → Exec (World Db H) GoError (Unit {0})
  store_requested id =
      map_err (wrap "failed to update payment status")
        (update_payment_status repository capacity env id requested)

  callback_present :
      (p : Payment)
      → repository.get_by_external_id req.external_id w.db ≡ ok p
      → process_payment_callback repository capacity bus env req w
        ≡ (store_requested p.id
              >> announce repository capacity bus env req p (map_external_status req.status))
            w
  unfolding process_payment_callback store_requested get_payment_by_external_id
  callback_present p present = rw present refl

  found_outcome :
      (p : Payment)
      → find (has_external_id req.external_id) (rows w.db) ≡ some p
      → CallbackOutcome (
          (store_requested p.id
              >> announce repository capacity bus env req p (map_external_status req.status))
            w)
  unfolding store_requested update_payment_status
  found_outcome p there =
      let stored = repository.update_status p.id requested (env.clock 1) (env.clock 2) in
      let next = λ (u : Unit {0}).
        announce repository capacity bus env req p (map_external_status req.status) in
      elim (Result-cases (stored w.db).0) [
        | inr (x, failed) ↦
            rw (bind-err (store_requested p.id) next w (map_err-err _ (on_db stored) w failed)) (
              inr (
                inl (
                  p,
                  x,
                  there,
                  failed,
                  refl,
                  (
                    laws.update_status_err p.id requested (env.clock 1) (env.clock 2) w.db x failed,
                    refl,
                    refl,
                  ),
                )))
        | inl (u, done) ↦
            let (result, same_db, queue, event) = announced p (stored w.db).1 in
            rw (bind-ok (store_requested p.id) next w (map_err-ok _ (on_db stored) w done)) (
              inr (
                inr (
                  p,
                  there,
                  result,
                  rw same_db
                      (laws.update_status_ok p.id requested (env.clock 1) (env.clock 2) w.db done),
                  queue,
                  event,
                )))
      ]

  -- For every payment repository that keeps its laws, a callback ends in one of three ways. If
  -- the external id cannot be looked up, the state is as it was; if the update fails, its error
  -- is answered and nothing has changed; otherwise the rows with the payment's id take the status
  -- that the gateway's maps to, whatever their status was, with the callback's data, and the
  -- goroutines of a payment.completed event are started for a success, of a payment.failed event
  -- for a failure, and none for any other status.
  pub process_payment_callback_outcome :
      CallbackOutcome (process_payment_callback repository capacity bus env req w)
  unfolding process_payment_callback get_payment_by_external_id
  process_payment_callback_outcome =
      elim (Result-cases (repository.get_by_external_id req.external_id w.db)) [
        | inr (x, missing) ↦ inl (x, missing, rw missing refl)
        | inl (p, present) ↦
            rw (callback_present p present)
              (found_outcome p (laws.get_by_external_id_ok req.external_id w.db p present))
      ]
