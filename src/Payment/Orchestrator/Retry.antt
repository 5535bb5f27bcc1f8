-- ===== src/Payment/Orchestrator/Retry.antt =====
-- Which payments internal/payment/orchestrator.go retries, and how.
use expense_management.Prelude.{
  ℕ, ◌≤◌, String, List, some, true, false, ◌≡◌, ◌≢◌, refl, ap, sym, ◌⊎◌, inl, inr, Bool-cases,
  Result-cases, ℤ, pos, ◌≤ℤ◌, ◌<ℤ◌, Result, ok, err, show, ◌<>◌, eq_iff, arith, find, keep,
  update_where, All, map_err-ok, map_err-err, map_err, Exec, ◌>>=◌, pure, bind-ok, bind-err, ◌∙◌,
}
use mathlib.Core.List.{Memᴰ}
use expense_management.Errors.{GoError, msg, wrap}
use expense_management.World.{World, Env}
use expense_management.Payment.Dto.{PaymentRequest, PaymentResponse}
use expense_management.Payment.Entity.{Payment, can_retry}
use expense_management.Payment.Repository.{
  RepositoryApi, IsRepository, has_id, has_external_id, of_expense, one_more_retry,
}
use expense_management.Payment.Service
use expense_management.Payment.Service.{get_payment_by_expense_id}
use expense_management.Payment.Service.Processing.{ProcessOutcome, process_payment_ends}
use expense_management.Payment.Service.Retrying.{retry_payment-missing, retry_payment-found}
use expense_management.Payment.Orchestrator.{retry_payment}

can_retry_iff :
    (p : Payment) → (can_retry p ≡ true) → (p.status ≡ "failed") × (p.retry_count <ℤ pos 3)
unfolding can_retry
can_retry_iff p h = ground (arith, eq_iff p.status "failed")

not_retried : (p : Payment) → can_retry p ≡ false → (p.status ≢ "failed") ⊎ (pos 3 ≤ℤ p.retry_count)
unfolding can_retry
not_retried p h = ground (arith, eq_iff p.status "failed")

module _ {Db H : Type 0} (repository : RepositoryApi Db) (capacity : ℕ) (rows : Db → List Payment)
    (laws : IsRepository repository rows) (env : Env) (expense_id : ℤ) (external_id : String)
    (w : World Db H) where
  -- A payment of the expense, and no stored payment of the expense was created after it.
  abbrev pub IsLatest : Payment → Type 0
  IsLatest p =
      (p.expense_id ≡ expense_id)
      × Memᴰ p (rows w.db)
      × All (λ q. q.created_at ≤ p.created_at) (keep (of_expense expense_id) (rows w.db))

  -- The state after the count of retries of a payment was raised.
  abbrev pub counted : Payment → World Db H
  counted q = record w { db = (repository.increment_retry_count q.id w.db).1 }

  -- The retry was counted, unless the repository reports an error, which is only logged.
  abbrev pub IsCounted : Payment → Type 0
  IsCounted q =
      (((repository.increment_retry_count q.id w.db).0 ≡ ok tt)
        × (rows (counted q).db ≡ update_where (has_id q.id) one_more_retry (rows w.db)))
      ⊎ ((x : GoError) × ((repository.increment_retry_count q.id w.db).0 ≡ err x)
          × (rows (counted q).db ≡ rows w.db))

  abbrev pub answer_of : Result GoError PaymentResponse → Result GoError (Unit {0})
  answer_of (ok response) = ok tt
  answer_of (err e) = err (wrap "payment retry failed" e)

  -- The amount of the latest payment, under the external id that the caller gives.
  abbrev pub again : Payment → PaymentRequest
  again p = record { amount = p.amount_idr; external_id = external_id }

  abbrev pub refusal : Payment → GoError
  refusal p = msg (
      "payment cannot be retried (status: "
      <> p.status
      <> ", retries: "
      <> show p.retry_count
      <> ")")

  -- The four ways in which a retry ends.
  abbrev pub RetryEnding : Result GoError (Unit {0}) × World Db H → Type 0
  RetryEnding r =
      ((x : GoError) × (repository.get_latest_by_expense_id expense_id w.db ≡ err x)
        × (r ≡ (err (wrap "payment record not found" x), w)))
      ⊎ ((p : Payment) × IsLatest p
          × ((p.status ≢ "failed") ⊎ (pos 3 ≤ℤ p.retry_count))
          × (r ≡ (err (refusal p), w)))
      ⊎ ((p : Payment) × (x : GoError) × IsLatest p
          × (p.status ≡ "failed")
          × (p.retry_count <ℤ pos 3)
          × (repository.get_by_external_id external_id w.db ≡ err x)
          × (r ≡ (err (wrap "payment retry failed" (wrap "payment record not found" x)), w)))
      ⊎ ((p : Payment) × (q : Payment) × (processed : Result GoError PaymentResponse × World Db H)
          × IsLatest p
          × (p.status ≡ "failed")
          × (p.retry_count <ℤ pos 3)
          × (find (has_external_id external_id) (rows w.db) ≡ some q)
          × IsCounted q
          × ProcessOutcome repository capacity rows laws env (again p) (counted q) processed
          × (r ≡ (answer_of processed.0, processed.1)))

  is_counted : (q : Payment) → IsCounted q
  is_counted q = elim (Result-cases (repository.increment_retry_count q.id w.db).0) [
    | inl (t, done) ↦ inl (done, laws.increment_ok q.id w.db done)
    | inr (x, failed) ↦ inr (x, failed, laws.increment_err q.id w.db x failed)
  ]

  -- What follows the service's retry.
  abbrev finish : Exec (World Db H) GoError PaymentResponse → Exec (World Db H) GoError (Unit {0})
  finish m = map_err (wrap "payment retry failed") m >>= λ response. pure tt

  finish_lem :
      (m : Exec (World Db H) GoError PaymentResponse) → finish m w ≡ (answer_of (m w).0, (m w).1)
  finish_lem m = elim (Result-cases (m w).0) [
    | inl (a, done) ↦
        bind-ok (map_err _ m) (λ response. pure tt) w (map_err-ok _ m w done)
        ∙ sym (ap (λ x. (answer_of x, (m w).1)) done)
    | inr (x, failed) ↦
        bind-err (map_err _ m) (λ response. pure tt) w (map_err-err _ m w failed)
        ∙ sym (ap (λ x. (answer_of x, (m w).1)) failed)
  ]

  answered :
      (p : Payment) (r : Result GoError PaymentResponse × World Db H)
      → repository.get_latest_by_expense_id expense_id w.db ≡ ok p
      → can_retry p ≡ true
      → Service.retry_payment repository capacity env (again p) w ≡ r
      → retry_payment repository capacity env expense_id external_id w ≡ (answer_of r.0, r.1)
  unfolding retry_payment get_payment_by_expense_id
  answered p r latest retryable e =
      let m = Service.retry_payment repository capacity env (again p) in
      let to_finish : retry_payment repository capacity env expense_id external_id w ≡ finish m w =
        rw (latest, retryable) refl in
      to_finish ∙ finish_lem m ∙ ap (λ x. (answer_of x.0, x.1)) e

  -- For every payment repository that keeps its laws, a retry for an expense and an external id
  -- ends in one of four ways. If the repository cannot answer the latest payment of the expense,
  -- that error is answered, wrapped. Otherwise it answers a stored payment of the expense than
  -- which none of the expense was created later; if that one has not failed, or was retried three
  -- times or more, the answer names its status and its retries; and if it has failed and was
  -- retried fewer than three times, but the external id cannot be looked up, that error is
  -- answered, wrapped twice. In these three the state is as it was. Otherwise the retry of the
  -- payment with the external id is counted, or the repository reports an error, which is not
  -- answered, and the rows are as they were; from there the latest payment's amount is processed
  -- under the external id, in one of the ways of ProcessPayment, and the answer is success or the
  -- error of that, wrapped.
  pub retry_latest_outcome :
      RetryEnding (retry_payment repository capacity env expense_id external_id w)
  unfolding retry_payment get_payment_by_expense_id
  retry_latest_outcome = elim (Result-cases (repository.get_latest_by_expense_id expense_id w.db)) [
    | inr (x, missing) ↦ inl (x, missing, rw missing refl)
    | inl (p, latest) ↦
        let is_latest = laws.get_latest_by_expense_id_ok expense_id w.db p latest in
        elim (Bool-cases (can_retry p)) [
          | inr refused ↦ inr (inl (p, is_latest, not_retried p refused, rw (latest, refused) refl))
          | inl retryable ↦
              let (failed, few) = can_retry_iff p retryable in
              elim (Result-cases (repository.get_by_external_id external_id w.db)) [
                | inr (x, missing) ↦ inr (
                    inr (
                      inl (
                        p,
                        x,
                        is_latest,
                        failed,
                        few,
                        missing,
                        answered p (err (wrap "payment record not found" x), w) latest retryable
                            (retry_payment-missing repository capacity env (again p) w x missing),
                      )))
                | inl (q, found) ↦ inr (
                    inr (
                      inr (
                        p,
                        q,
                        Service.process_payment repository capacity env (again p) (counted q),
                        is_latest,
                        failed,
                        few,
                        laws.get_by_external_id_ok external_id w.db q found,
                        is_counted q,
                        process_payment_ends repository capacity rows laws env (again p)
                            (counted q),
                        answered p
                            (Service.process_payment repository capacity env (again p) (counted q))
                            latest retryable
                            (retry_payment-found repository capacity env (again p) w q found),
                      )))
              ]
        ]
  ]
