-- ===== src/Examples/Payments.antt =====
-- Payments: creating, processing, retrying, callbacks, and the gateway's client.
use expense_management.Prelude.{none, ℕ, List, [], ◌∷◌, ◌≡◌, refl, true, false, pos, err, show}
use expense_management.Errors.{GoError, msg}
use expense_management.Events.{ExpenseApprovedEvent, new_expense_approved_event, expense_approved}
use expense_management.Expense.Service.{external_id_of}
use expense_management.World.{World}
use expense_management.Gateway.Types.{PaymentRequest, no_response}
use expense_management.Gateway.Client
use expense_management.Gateway.Client.Laws
use expense_management.Gateway.Worker.{WorkerEnv, process_payment_job}
use expense_management.Gateway.Worker.Callback as WorkerCallback
use expense_management.Payment.Entity.{Payment}
use expense_management.Payment.Repository.{IsRepository}
use expense_management.Payment.Postgres.{payment_repository, payment_repository-IsRepository}
use expense_management.Payment.Service
use expense_management.Payment.Service.Creation.{CreateOutcome, create_payment_outcome}
use expense_management.Payment.Service.Processing.{ProcessOutcome, process_payment_ends}
use expense_management.Payment.Webhook.{PaymentCallbackRequest, process_payment_callback}
use expense_management.Payment.Webhook.Callback.{CallbackOutcome, process_payment_callback_outcome}
use expense_management.Payment.Orchestrator.{retry_payment, handle_expense_approved}
use expense_management.Payment.Orchestrator.Redelivery.{handle_expense_approved_twice}
use expense_management.Payment.Orchestrator.Retry.{RetryEnding, retry_latest_outcome}
use expense_management.Database.Memory.{memory}
use expense_management.Examples.Data.{
  payments, payment_rows, payment_laws, payment_table, payment_table_laws, payment_table_newest,
  bus, env, first_payment, bank,
}

create_payment_outcome_example :
    CreateOutcome payments 100 payment_rows payment_laws env
      (pos 2)
      "exp-2-50000"
      (pos 50000)
      bank
      (Service.create_payment payments 100 env (pos 2) "exp-2-50000" (pos 50000) bank)
create_payment_outcome_example =
    create_payment_outcome payments 100 payment_rows payment_laws env (pos 2) "exp-2-50000"
      (pos 50000) bank

process_payment_ends_example :
    ProcessOutcome payments 100 payment_rows payment_laws env
      (record { amount = pos 2000000; external_id = "exp-1-2000000" })
      bank
      (Service.process_payment payments 100 env
        (record { amount = pos 2000000; external_id = "exp-1-2000000" })
        bank)
process_payment_ends_example =
    process_payment_ends payments 100 payment_rows payment_laws env
      (record { amount = pos 2000000; external_id = "exp-1-2000000" }) bank

abbrev paid : PaymentCallbackRequest
paid = record {
  external_id = "exp-1-2000000";
  status = "SUCCESS";
  gateway_payment_id = "gw-1";
  amount = pos 2000000;
  failure_reason = "";
}

process_payment_callback_outcome_example :
    CallbackOutcome payments 100 bus payment_rows payment_laws env paid bank
      (process_payment_callback payments 100 bus env paid bank)
process_payment_callback_outcome_example =
    process_payment_callback_outcome payments 100 bus payment_rows payment_laws env paid bank

payment_repository-IsRepository_example :
    IsRepository (payment_repository payment_table) payment_rows
payment_repository-IsRepository_example =
    payment_repository-IsRepository payment_table payment_rows payment_table_laws
      payment_table_newest

-- A payment that failed, and was retried twice.
abbrev late : World (List Payment) ℕ
late = record bank { db = record first_payment { status = "failed"; retry_count = pos 2 } ∷ [] }

retry_latest_outcome_example :
    RetryEnding payments 100 payment_rows payment_laws env
      (pos 1)
      "exp-1-2000000"
      late
      (retry_payment payments 100 env (pos 1) "exp-1-2000000" late)
retry_latest_outcome_example =
    retry_latest_outcome payments 100 payment_rows payment_laws env (pos 1) "exp-1-2000000" late

abbrev order : PaymentRequest
order = record { external_id = "exp-1-2000000"; amount = pos 2000000; currency = "IDR" }

process_payment_outcome_example :
    Laws.SubmitOutcome 100
      (no_response (msg "timeout"))
      order
      []
      (Client.process_payment 100 (no_response (msg "timeout")) order [])
process_payment_outcome_example =
    Laws.process_payment_outcome 100 (no_response (msg "timeout")) order []

abbrev config : Client.Config
config = record { max_workers = pos 0; job_queue_size = pos 5; worker_pool_size = pos 0 }

abbrev worker : WorkerEnv
worker = record {
  api = no_response (msg "timeout");
  cancelled_waiting = false;
  cancelled_sending = false;
  lucky = true;
  webhook_request = none;
}

process_payment_job_outcome_example :
    WorkerCallback.CallbackOutcome worker
      (record { external_id = "exp-1-2000000"; amount = pos 2000000; payment_id = "gw-1" })
      (process_payment_job worker
        (record { external_id = "exp-1-2000000"; amount = pos 2000000; payment_id = "gw-1" }))
process_payment_job_outcome_example =
    WorkerCallback.process_payment_job_outcome worker
      (record { external_id = "exp-1-2000000"; amount = pos 2000000; payment_id = "gw-1" })

abbrev again : ExpenseApprovedEvent
again = new_expense_approved_event "u-3" 9 (pos 1) (pos 2000000) (pos 4) "IDR"

handle_expense_approved_twice_example :
    (x : GoError) × (handle_expense_approved payments 100 env (expense_approved again) bank
      ≡ (err x, bank))
unfolding payment_repository memory external_id_of show new_expense_approved_event
handle_expense_approved_twice_example =
    handle_expense_approved_twice payments 100 payment_rows payment_laws env again bank
      first_payment refl
