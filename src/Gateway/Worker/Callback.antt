-- ===== src/Gateway/Worker/Callback.antt =====
-- The callbacks that a worker of internal/paymentgateway/client.go sends.
use expense_management.Prelude.{
  String, Option, none, some, true, false, ◌≡◌, ◌≢◌, refl, ◌⊎◌, inl, inr, Bool-cases, Option-cases,
  Result-cases, ok, err, ◌<>◌, eq_iff, arith, ap, sym, subst,
}
use expense_management.Errors.{GoError, error_text}
use expense_management.Gateway.Types.{PaymentJob}
use expense_management.Gateway.Client.{initiate_payment}
use expense_management.Gateway.Worker.{
  WorkerEnv, CallbackPayload, process_payment_job, send_callback_to_webhook, simulate, after_retry,
  is_fallback,
}

module _ (env : WorkerEnv) (job : PaymentJob) where
  -- The gateway knows the payment: it gave the job's id, or the id of the second request.
  abbrev pub Initiated : String → Type 0
  Initiated payment_id =
      ((is_fallback job ≡ false) × (payment_id ≡ job.payment_id))
      ⊎ ((is_fallback job ≡ true) × (initiate_payment env.api ≡ ok payment_id))

  -- What a job comes to: the payment's id, its status, and the reason of a failure.
  abbrev pub Decides : String → String → String → Type 0
  Decides payment_id status reason =
      ((e : GoError) × (is_fallback job ≡ true)
        × (initiate_payment env.api ≡ err e)
        × (payment_id ≡ job.payment_id)
        × (status ≡ "FAILED")
        × (reason ≡ "Payment initiation failed: " <> error_text e))
      ⊎ (Initiated payment_id
          × (env.cancelled_waiting ≡ false)
          × (env.lucky ≡ true)
          × (status ≡ "SUCCESS")
          × (reason ≡ ""))
      ⊎ (Initiated payment_id
          × (env.cancelled_waiting ≡ false)
          × (env.lucky ≡ false)
          × (status ≡ "FAILED")
          × (reason ≡ "Insufficient funds"))

  -- What is sent of a decision: nothing once the client is shut down or if the request cannot be
  -- made, and otherwise all of it.
  abbrev pub Sends : String → String → String → Option CallbackPayload → Type 0
  Sends payment_id status reason r =
      ((r ≡ none) × (env.cancelled_sending ≡ true))
      ⊎ ((e : GoError) × (r ≡ none) × (env.webhook_request ≡ some e))
      ⊎ ((c : CallbackPayload) × (r ≡ some c)
          × (env.cancelled_sending ≡ false)
          × (env.webhook_request ≡ none)
          × (c.external_id ≡ job.external_id)
          × (c.amount ≡ job.amount)
          × (c.gateway_payment_id ≡ payment_id)
          × (c.status ≡ status)
          × (((reason ≡ "") × (c.failure_reason ≡ none))
              ⊎ ((reason ≢ "") × (c.failure_reason ≡ some reason))))

  -- A job is given up while it waits, or it is decided and the decision is sent.
  abbrev pub CallbackOutcome : Option CallbackPayload → Type 0
  CallbackOutcome r =
      ((payment_id : String) × Initiated payment_id × (env.cancelled_waiting ≡ true) × (r ≡ none))
      ⊎ ((payment_id : String) × (status : String) × (reason : String) × Decides payment_id status
            reason
          × Sends payment_id status reason r)

  sent :
      (payment_id status reason : String)
      → Sends payment_id status reason
          (send_callback_to_webhook env job.external_id status job.amount payment_id reason)
  unfolding send_callback_to_webhook
  sent payment_id status reason = elim (Bool-cases env.cancelled_sending) [
    | inl stopped ↦ rw stopped (inl (refl, refl))
    | inr running ↦ elim (Option-cases env.webhook_request) [
      | inr (e, failed) ↦ rw (running, failed) (inr (inl (e, refl, refl)))
      | inl made ↦
          rw (running, made)
            (inr
              (inr (_, refl, refl, refl, refl, refl, refl, refl, ground (arith, eq_iff reason ""))))
    ]
  ]

  simulated :
      (payment_id : String)
      → Initiated payment_id
      → CallbackOutcome (simulate env (record job { payment_id = payment_id }))
  unfolding simulate
  simulated payment_id known = elim (Bool-cases env.cancelled_waiting) [
    | inl stopped ↦ rw stopped (inl (payment_id, known, refl, refl))
    | inr running ↦ elim (Bool-cases env.lucky) [
      | inl lucky ↦
          rw (running, lucky)
            (inr (
              payment_id,
              "SUCCESS",
              "",
              inr (inl (known, refl, refl, refl, refl)),
              sent payment_id "SUCCESS" "",
            ))
      | inr unlucky ↦
          rw (running, unlucky)
            (inr (
              payment_id,
              "FAILED",
              "Insufficient funds",
              inr (inr (known, refl, refl, refl, refl)),
              sent payment_id "FAILED" "Insufficient funds",
            ))
    ]
  ]

  after_retried :
      is_fallback job ≡ true → CallbackOutcome (after_retry env job (initiate_payment env.api))
  unfolding after_retry
  after_retried fallback = elim (Result-cases (initiate_payment env.api)) [
    | inl (id, initiated) ↦
        subst CallbackOutcome (sym (ap (after_retry env job) initiated))
          (simulated id (inr (fallback, initiated)))
    | inr (e, failed) ↦ subst CallbackOutcome (sym (ap (after_retry env job) failed)) (
        inr (
          job.payment_id,
          "FAILED",
          "Payment initiation failed: " <> error_text e,
          inl (e, fallback, failed, refl, refl, refl),
          sent job.payment_id "FAILED" ("Payment initiation failed: " <> error_text e),
        ))
  ]

  -- A job with a payment id that the gateway gave, or a job with the fallback whose second
  -- request gives one, is dropped if the client is shut down while it waits, and otherwise is
  -- decided under that id: a success without a reason if the draw is favourable, and a failure
  -- for insufficient funds if it is not. A job with the fallback whose second request gives an
  -- error is decided at once, under the fallback: a failure with the error's text. What is
  -- decided is sent in one callback, with the job's external id and amount, the payment id, the
  -- status, and the reason unless it is empty; nothing is sent if the client is shut down by
  -- then, or if the request to the webhook cannot be made.
  pub process_payment_job_outcome : CallbackOutcome (process_payment_job env job)
  unfolding process_payment_job
  process_payment_job_outcome = elim (Bool-cases (is_fallback job)) [
    | inl fallback ↦
        let retried : after_retry env job (initiate_payment env.api) ≡ process_payment_job env job =
          rw fallback refl in
        subst CallbackOutcome retried (after_retried fallback)
    | inr known ↦
        let at_once : simulate env job ≡ process_payment_job env job = rw known refl in
        subst CallbackOutcome at_once (simulated job.payment_id (inl (known, refl)))
  ]
