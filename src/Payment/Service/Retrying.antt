-- ===== src/Payment/Service/Retrying.antt =====
-- The steps of `RetryPayment` in internal/payment/service.go.
use expense_management.Prelude.{ℕ, ◌≡◌, refl, ok, err}
use expense_management.Errors.{GoError, wrap}
use expense_management.World.{World, Env}
use expense_management.Payment.Entity.{Payment}
use expense_management.Payment.Dto.{PaymentRequest}
use expense_management.Payment.Repository.{RepositoryApi}
use expense_management.Payment.Service.{retry_payment, process_payment}

module _ {Db H : Type 0} (repository : RepositoryApi Db) (capacity : ℕ) (env : Env)
    (req : PaymentRequest) (w : World Db H) where
  -- Without a payment of the external id nothing is done.
  pub retry_payment-missing :
      (x : GoError)
      → repository.get_by_external_id req.external_id w.db ≡ err x
      → retry_payment repository capacity env req w ≡ (err (wrap "payment record not found" x), w)
  unfolding retry_payment
  retry_payment-missing x missing = rw missing refl

  -- With one, its retries are counted and then the request is processed.
  pub retry_payment-found :
      (q : Payment)
      → repository.get_by_external_id req.external_id w.db ≡ ok q
      → retry_payment repository capacity env req w
        ≡ process_payment repository capacity env req
            (record w { db = (repository.increment_retry_count q.id w.db).1 })
  unfolding retry_payment
  retry_payment-found q found = rw found refl
