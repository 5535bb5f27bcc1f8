-- ===== src/Gateway/Client/Laws.antt =====
-- What the calls of internal/paymentgateway/client.go answer, and what they do to the job queue.
use expense_management.Prelude.{
  ℕ, ◌≤◌, ◌<◌, String, List, [], ◌∷◌, ◌++◌, none, some, ◌≡◌, ◌≢◌, refl, ◌⊎◌, inl, inr, ◌↔◌, pos,
  ◌≤ℤ◌, ◌<ℤ◌, ltb, Result, ok, err, length, arith, Bool-cases, Option-cases, eq_iff, ◌<>◌,
}
use expense_management.Errors.{GoError, msg, wrap}
use expense_management.Gateway.Types.{
  PaymentRequest, PaymentData, PaymentJob, ApiReply, validate_request,
}
use expense_management.Gateway.Client.{
  Config, new_client, process_payment, initiate_payment, id_or_fallback, enqueue, submit,
}

-- Whatever the configuration, the numbers of workers and the sizes of the queue and of the pool
-- that the client settles on are positive, and settling on them again changes none of them.
new_client_lem :
    (config : Config)
    → (pos 1 ≤ℤ (new_client config).max_workers)
      × (pos 1 ≤ℤ (new_client config).job_queue_size)
      × (pos 1 ≤ℤ (new_client config).worker_pool_size)
      × (new_client (new_client config) ≡ new_client config)
unfolding new_client
new_client_lem config = ground arith

-- A request to the gateway is valid exactly when it has an external id, an amount above zero and
-- a currency.
validate_request_iff :
    (r : PaymentRequest)
    → (validate_request r ≡ none) ↔ ((r.external_id ≢ "") × (pos 0 <ℤ r.amount) × (r.currency ≢ ""))
unfolding validate_request
validate_request_iff r = (
  λ h. ground (arith, eq_iff r.external_id "", eq_iff r.currency ""),
  λ h. ground (arith, eq_iff r.external_id "", eq_iff r.currency ""),
)

-- Where the payment id of an external id comes from: the gateway gave it, or gave an error and the id
-- is made up.
abbrev pub PaymentIdSource : String → Result GoError String → String → Type 0
PaymentIdSource external_id initiated id =
    (initiated ≡ ok id) ⊎ ((e : GoError) × (initiated ≡ err e) × (id ≡ "postman_" <> external_id))

module _ (capacity : ℕ) (api : ApiReply String) (req : PaymentRequest)
    (queue : List PaymentJob) where
  -- The three ways in which a payment is taken.
  abbrev pub SubmitOutcome : Result GoError PaymentData × List PaymentJob → Type 0
  SubmitOutcome r =
      ((e : GoError) × (validate_request req ≡ some e)
        × (r ≡ (err (wrap "validation error" e), queue)))
      ⊎ ((validate_request req ≡ none)
          × (capacity ≤ length queue)
          × (r ≡ (err (msg "payment queue full, please try again later"), queue)))
      ⊎ ((answer : PaymentData) × (job : PaymentJob) × (validate_request req ≡ none)
          × (length queue < capacity)
          × (r ≡ (ok answer, queue ++ job ∷ []))
          × (answer.status ≡ "PENDING")
          × (answer.external_id ≡ req.external_id)
          × (job.external_id ≡ req.external_id)
          × (job.amount ≡ req.amount)
          × (job.payment_id ≡ answer.id)
          × PaymentIdSource req.external_id (initiate_payment api) answer.id)

  fallback_cases :
      (x : Result GoError String)
      → PaymentIdSource req.external_id x (id_or_fallback req.external_id x)
  unfolding id_or_fallback
  fallback_cases (ok id) = inl refl
  fallback_cases (err e) = inr (e, refl, refl)

  -- The gateway's client takes a payment in one of three ways. A request that is not valid, and a
  -- request that finds the job queue full, get an error and leave the queue as it is; otherwise
  -- there was room, exactly one job is appended, with the request's external id and amount, the
  -- answer is PENDING for that external id, its payment id is the job's, and it is the one that
  -- the gateway gave or, if the gateway gave an error, the fallback, "postman_" and the external
  -- id.
  pub process_payment_outcome : SubmitOutcome (process_payment capacity api req queue)
  unfolding process_payment submit enqueue
  process_payment_outcome = elim (Option-cases (validate_request req)) [
    | inr (e, invalid) ↦ inl (e, invalid, rw invalid)
    | inl valid' ↦ elim (Bool-cases (ltb (length queue) capacity)) [
      | inl room ↦ inr (
          inr (
            _,
            _,
            valid',
            ground arith,
            rw (valid', room) refl,
            refl,
            refl,
            refl,
            refl,
            refl,
            fallback_cases (initiate_payment api),
          ))
      | inr full ↦ inr (inl (valid', ground arith, rw (valid', full)))
    ]
  ]
