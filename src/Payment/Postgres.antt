-- ===== src/Payment/Postgres.antt =====
-- internal/payment/postgres/payment.go: the repository over a table of the database. gorm also sets
-- `updated_at` in `Updates`, and not in `UpdateColumn`.
use expense_management.Prelude.{
  ℕ, ◌+◌, String, List, [], ◌∷◌, ◌++◌, Option, none, some, ◌≡◌, refl, fun_ext, ℤ, pos_part,
  neg_part, sub_ℕ, eq_ℤ_iff, Result, Exec,
}
use expense_management.Errors.{GoError}
use expense_management.Database.{Table, IsTable, IsGreatestFirst}
use expense_management.Payment.Entity.{Payment, RawMessage}
use expense_management.Payment.Repository.{
  RepositoryApi, IsRepository, StatusUpdate, has_id, has_external_id, of_expense, apply_update,
}

-- An entry of the map that `Updates` gets: a column and its new value. The last is the expression
-- `retry_count + 1`, which the database computes.
pub data Assignment : Type 0 where
  status_is : String → Assignment
  processed_at_is : ℕ → Assignment
  payment_method_is : String → Assignment
  gateway_response_is : RawMessage → Assignment
  failure_reason_is : String → Assignment
  updated_at_is : ℕ → Assignment
  retry_count_plus_one : Assignment

assign : Assignment → Payment → Payment
assign (status_is s) p = record p { status = s }
assign (processed_at_is t) p = record p { processed_at = some t }
assign (payment_method_is m) p = record p { payment_method = some m }
assign (gateway_response_is r) p = record p { gateway_response = some r }
assign (failure_reason_is r) p = record p { failure_reason = some r }
assign (updated_at_is t) p = record p { updated_at = t }
assign retry_count_plus_one p = record p {
  retry_count = sub_ℕ (pos_part p.retry_count + 1) (neg_part p.retry_count);
}

assign_all : List Assignment → Payment → Payment
unfolding assign
assign_all [] p = p
assign_all (a ∷ assignments) p = assign_all assignments (assign a p)

-- `if value != nil { updates[column] = *value }`
abbrev entry : {A : Type 0} → Option A → (A → Assignment) → List Assignment
entry none column = []
entry (some value) column = column value ∷ []

-- The map of `UpdateStatus`, with what gorm adds.
status_updates : StatusUpdate → ℕ → ℕ → List Assignment
status_updates u processed_at updated_at =
    status_is u.status
    ∷ processed_at_is processed_at
    ∷ (entry u.payment_method payment_method_is
        ++ (entry u.gateway_response gateway_response_is
            ++ (entry u.failure_reason failure_reason_is ++ updated_at_is updated_at ∷ [])))

module _ {Db : Type 0} (table : Table Db Payment) where
  get_by_id : ℤ → Db → Result GoError Payment
  get_by_id id db = table.first (has_id id) db

  get_by_external_id : String → Db → Result GoError Payment
  get_by_external_id external_id db = table.first (has_external_id external_id) db

  get_by_expense_id : ℤ → Db → Result GoError (List Payment)
  get_by_expense_id expense_id db = table.find_all (of_expense expense_id) "created_at DESC" db

  get_latest_by_expense_id : ℤ → Db → Result GoError Payment
  get_latest_by_expense_id expense_id db =
      table.first_ordered (of_expense expense_id) "created_at DESC" db

  update_status : ℤ → StatusUpdate → ℕ → ℕ → Exec Db GoError (Unit {0})
  unfolding assign_all status_updates
  update_status id u processed_at updated_at db =
      table.updates (has_id id) (assign_all (status_updates u processed_at updated_at)) db

  increment_retry_count : ℤ → Exec Db GoError (Unit {0})
  unfolding assign_all
  increment_retry_count id db =
      table.updates (has_id id) (assign_all (retry_count_plus_one ∷ [])) db

  -- `NewPaymentRepository`
  unfoldable pub payment_repository : RepositoryApi Db
  unfolding get_by_id get_by_external_id get_by_expense_id get_latest_by_expense_id update_status
      increment_retry_count
  payment_repository = record {
    create = table.create;
    get_by_id = get_by_id;
    get_by_external_id = get_by_external_id;
    get_by_expense_id = get_by_expense_id;
    get_latest_by_expense_id = get_latest_by_expense_id;
    update_status = update_status;
    increment_retry_count = increment_retry_count;
  }

abbrev pub set_id : ℤ → Payment → Payment
set_id id p = record p { id = id }

-- The map sets exactly the columns of the update that are given.
assigned :
    (status : String) (method : Option String) (response : Option RawMessage)
    (reason : Option String) (t t' : ℕ) (p : Payment)
    → let u : StatusUpdate = record {
      status = status;
      payment_method = method;
      gateway_response = response;
      failure_reason = reason;
    } in
      assign_all (status_updates u t t') p ≡ apply_update u t t' p
unfolding assign_all status_updates
assigned status none none none t t' p = refl
assigned status none none (some f) t t' p = refl
assigned status none (some g) none t t' p = refl
assigned status none (some g) (some f) t t' p = refl
assigned status (some m) none none t t' p = refl
assigned status (some m) none (some f) t t' p = refl
assigned status (some m) (some g) none t t' p = refl
assigned status (some m) (some g) (some f) t t' p = refl

status_updates_lem :
    (u : StatusUpdate) (t t' : ℕ) → assign_all (status_updates u t t') ≡ apply_update u t t'
status_updates_lem u t t' =
    fun_ext (assigned u.status u.payment_method u.gateway_response u.failure_reason t t')

module _ {Db : Type 0} (table : Table Db Payment) (rows : Db → List Payment)
    (laws : IsTable table rows (λ p. p.id) set_id)
    (newest : IsGreatestFirst table rows "created_at DESC" (λ p. p.created_at)) where
  -- For every table that keeps the laws of the database, and whose order "created_at DESC" puts
  -- the greatest time of creation first, the Postgres repository of payments keeps all laws that
  -- the payment service relies on: a created payment is appended under a new id; an external id
  -- finds the first row with it, and none has it if the answer is that no record was found; the
  -- latest payment of an expense is a row of the expense, and no row of the expense was created
  -- later; an update of the status changes, in the rows with the id, the status, the time of
  -- processing, and those of the method, the response and the reason that are given, and the time
  -- of the update, and no other column; a counted retry adds one to the retries in the rows with
  -- the id; and a write that fails leaves the rows as they were.
  pub payment_repository-IsRepository : IsRepository (payment_repository table) rows
  unfolding payment_repository assign_all
  payment_repository-IsRepository = record {
    create_ok = laws.create_ok;
    create_err = laws.create_err;
    get_by_external_id_ok = λ x db p h. laws.first_ok (has_external_id x) db p h;
    get_by_external_id_none = λ x db h. laws.first_none (has_external_id x) db h;
    get_latest_by_expense_id_ok = λ expense_id db p h.
        let (q, m) = laws.first_ordered_ok (of_expense expense_id) "created_at DESC" db p h in
        ((eq_ℤ_iff p.expense_id expense_id).0 q, m, newest.greatest (of_expense expense_id) db p h);
    update_status_ok =
        λ id u t t' db h. rw (← status_updates_lem u t t') (laws.updates_ok _ _ db h);
    update_status_err = λ id u t t' db e h. laws.updates_err _ _ db e h;
    increment_ok = λ id db h. laws.updates_ok _ _ db h;
    increment_err = λ id db e h. laws.updates_err _ _ db e h;
  }
