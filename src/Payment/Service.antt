-- ===== src/Payment/Service.antt =====
-- internal/payment/service.go, over the state that the services share. `capacity` is that of the
-- gateway client's job queue.
pub mod Creation
pub mod Processing
pub mod Retrying
use expense_management.Prelude.{
  ℕ, String, none, some, ℤ, ◌<>◌, Result, ok, err, Exec, pure, fail, map_err, ignore, ◌>>=◌, ◌>>◌,
}
use expense_management.Errors.{GoError, msg, wrap, error_text}
use expense_management.World.{World, Env, on_db, read_db}
use expense_management.Gateway.Types.{PaymentRequest as GatewayRequest, PaymentData}
use expense_management.Gateway.Client
use expense_management.Payment.Entity.{
  Payment, response_json, new_payment, map_external_status, status_failed,
}
use expense_management.Payment.Dto.{PaymentRequest, PaymentResponse}
use expense_management.Payment.Repository.{RepositoryApi, StatusUpdate}

module _ {Db H : Type 0} (repository : RepositoryApi Db) (capacity : ℕ) where
  -- The part of `CreatePayment` after the check for the external id.
  insert_payment : Env → ℤ → String → ℤ → Exec (World Db H) GoError Payment
  insert_payment env expense_id external_id amount =
      map_err (wrap "failed to create payment record")
        (on_db (repository.create (new_payment (env.clock 0) expense_id external_id amount)))

  -- An error of the lookup is taken for "there is none".
  unless_present : Env → ℤ → String → ℤ → Result GoError Payment → Exec (World Db H) GoError Payment
  unless_present env expense_id external_id amount (ok existing) =
      fail (msg ("external_id " <> external_id <> " already exists"))
  unless_present env expense_id external_id amount (err e) =
      insert_payment env expense_id external_id amount

  pub create_payment : Env → ℤ → String → ℤ → Exec (World Db H) GoError Payment
  unfolding unless_present
  create_payment env expense_id external_id amount w =
      unless_present env expense_id external_id amount
        (repository.get_by_external_id external_id w.db) w

  -- `s.gateway.ProcessPayment`, on the job queue of the state.
  call_gateway : Env → GatewayRequest → Exec (World Db H) GoError PaymentData
  call_gateway env req w =
      let (r, queue) = Client.process_payment capacity env.api req w.job_queue in
      (r, record w { job_queue = queue })

  -- What follows the gateway's answer: the status is stored, and an error of that is only logged.
  record_outcome : Env → ℤ → Result GoError PaymentData → Exec (World Db H) GoError PaymentResponse
  record_outcome env id (err e) = do
    ignore (
        on_db (
          repository.update_status id
            (record {
              status = status_failed;
              payment_method = none;
              gateway_response = none;
              failure_reason = some (error_text e);
            })
            (env.clock 1) (env.clock 2)))
    fail (wrap "payment processing failed" e)
  record_outcome env id (ok answer) = do
    let status = map_external_status answer.status
    ignore (
        on_db (
          repository.update_status id
            (record {
              status = status;
              payment_method = none;
              gateway_response = some (response_json answer);
              failure_reason = none;
            })
            (env.clock 1) (env.clock 2)))
    pure (record { id = answer.id; external_id = answer.external_id; status = status })

  process_found : Env → PaymentRequest → Payment → Exec (World Db H) GoError PaymentResponse
  unfolding call_gateway
  process_found env req found w =
      let (answer, w') =
        call_gateway env
          (record { external_id = req.external_id; amount = req.amount; currency = "IDR" }) w in
      record_outcome env found.id answer w'

  pub process_payment : Env → PaymentRequest → Exec (World Db H) GoError PaymentResponse
  process_payment env req = do
    found ←
        map_err (wrap "payment record not found")
          (read_db (repository.get_by_external_id req.external_id))
    process_found env req found

  pub retry_payment : Env → PaymentRequest → Exec (World Db H) GoError PaymentResponse
  unfolding process_payment
  retry_payment env req = do
    payment ←
        map_err (wrap "payment record not found")
          (read_db (repository.get_by_external_id req.external_id))
    ignore (on_db (repository.increment_retry_count payment.id))
    process_payment env req

  unfoldable pub get_payment_by_expense_id : ℤ → Exec (World Db H) GoError Payment
  get_payment_by_expense_id expense_id = read_db (repository.get_latest_by_expense_id expense_id)

  unfoldable pub get_payment_by_external_id : String → Exec (World Db H) GoError Payment
  get_payment_by_external_id external_id = read_db (repository.get_by_external_id external_id)

  unfoldable pub update_payment_status :
      Env → ℤ → StatusUpdate → Exec (World Db H) GoError (Unit {0})
  update_payment_status env id update =
      on_db (repository.update_status id update (env.clock 1) (env.clock 2))
