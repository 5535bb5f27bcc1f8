-- ===== src/Payment/Repository.antt =====
-- `RepositoryAPI` of internal/payment/service.go, with what the service relies on as laws. The
-- implementation, and the proof that it meets them, are in `Payment.Postgres`.
use expense_management.Prelude.{
  ℕ, String, List, [], ◌∷◌, ◌++◌, Option, none, some, Bool, ◌≡◌, ℤ, pos_part, neg_part, sub_ℕ, ◌+◌,
  eq_ℤ, str_eq, find, update_where, keep, All, ◌≤◌, Result, ok, err, Exec,
}
use mathlib.Core.List.{Memᴰ}
use expense_management.Errors.{GoError, record_not_found}
use expense_management.Payment.Entity.{Payment, RawMessage}

-- The status, method, response and failure reason of an update; `none` leaves a column as it is.
pub record StatusUpdate : Type 0 where
  pub status : String
  pub payment_method : Option String
  pub gateway_response : Option RawMessage
  pub failure_reason : Option String

pub record RepositoryApi (Db : Type 0) : Type 0 where
  pub create : Payment → Exec Db GoError Payment
  pub get_by_id : ℤ → Db → Result GoError Payment
  pub get_by_external_id : String → Db → Result GoError Payment
  pub get_by_expense_id : ℤ → Db → Result GoError (List Payment)
  pub get_latest_by_expense_id : ℤ → Db → Result GoError Payment
  -- The id, the changes, the clock reading of `UpdateStatus` and that of gorm for `updated_at`.
  pub update_status : ℤ → StatusUpdate → ℕ → ℕ → Exec Db GoError (Unit {0})
  pub increment_retry_count : ℤ → Exec Db GoError (Unit {0})

abbrev pub has_id : ℤ → Payment → Bool
has_id id p = eq_ℤ p.id id

abbrev pub has_external_id : String → Payment → Bool
has_external_id external_id p = str_eq p.external_id external_id

abbrev pub of_expense : ℤ → Payment → Bool
of_expense expense_id p = eq_ℤ p.expense_id expense_id

abbrev pub or_else {ℓ} : {A : Type ℓ} → Option A → Option A → Option A
or_else none old = old
or_else (some new) old = some new

abbrev pub apply_update : StatusUpdate → ℕ → ℕ → Payment → Payment
apply_update u processed_at updated_at p = record p {
  status = u.status;
  payment_method = or_else u.payment_method p.payment_method;
  gateway_response = or_else u.gateway_response p.gateway_response;
  failure_reason = or_else u.failure_reason p.failure_reason;
  processed_at = some processed_at;
  updated_at = updated_at;
}

-- `retry_count + 1`, computed by the database.
abbrev pub one_more_retry : Payment → Payment
one_more_retry p = record p {
  retry_count = sub_ℕ (pos_part p.retry_count + 1) (neg_part p.retry_count);
}

-- `rows` are the stored payments.
pub record IsRepository {Db : Type 0} (repo : RepositoryApi Db) (rows : Db → List Payment)
    : Type 0 where
  pub create_ok :
      (p q : Payment) (db : Db)
      → (repo.create p db).0 ≡ ok q
      → (id : ℤ) × (q ≡ record p { id = id })
        × (find (has_id id) (rows db) ≡ none)
        × (rows (repo.create p db).1 ≡ rows db ++ q ∷ [])
  pub create_err :
      (p : Payment) (db : Db) (e : GoError)
      → (repo.create p db).0 ≡ err e
      → rows (repo.create p db).1 ≡ rows db
  pub get_by_external_id_ok :
      (x : String) (db : Db) (p : Payment)
      → repo.get_by_external_id x db ≡ ok p
      → find (has_external_id x) (rows db) ≡ some p
  pub get_by_external_id_none :
      (x : String) (db : Db)
      → repo.get_by_external_id x db ≡ err record_not_found
      → find (has_external_id x) (rows db) ≡ none
  pub get_latest_by_expense_id_ok :
      (expense_id : ℤ) (db : Db) (p : Payment)
      → repo.get_latest_by_expense_id expense_id db ≡ ok p
      → (p.expense_id ≡ expense_id)
        × Memᴰ p (rows db)
        × All (λ q. q.created_at ≤ p.created_at) (keep (of_expense expense_id) (rows db))
  pub update_status_ok :
      (id : ℤ) (u : StatusUpdate) (t t' : ℕ) (db : Db)
      → (repo.update_status id u t t' db).0 ≡ ok tt
      → rows (repo.update_status id u t t' db).1
        ≡ update_where (has_id id) (apply_update u t t') (rows db)
  pub update_status_err :
      (id : ℤ) (u : StatusUpdate) (t t' : ℕ) (db : Db) (e : GoError)
      → (repo.update_status id u t t' db).0 ≡ err e
      → rows (repo.update_status id u t t' db).1 ≡ rows db
  pub increment_ok :
      (id : ℤ) (db : Db)
      → (repo.increment_retry_count id db).0 ≡ ok tt
      → rows (repo.increment_retry_count id db).1
        ≡ update_where (has_id id) one_more_retry (rows db)
  pub increment_err :
      (id : ℤ) (db : Db) (e : GoError)
      → (repo.increment_retry_count id db).0 ≡ err e
      → rows (repo.increment_retry_count id db).1 ≡ rows db
