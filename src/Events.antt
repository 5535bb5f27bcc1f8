-- ===== src/Events.antt =====
-- internal/core/events: the events and the bus.
--
-- `uuid.New` and the clock are arguments. A handler is a value of a type `H` that names it; what it
-- does is given where the handlers run. `Publish` starts a goroutine for each handler and returns:
-- the model returns those goroutines, and the scheduler runs them later.
pub mod Bus
use expense_management.Prelude.{ℕ, String, List, [], ◌∷◌, ℤ}

pub data PayloadValue : Type 0 where
  int : ℤ → PayloadValue
  str : String → PayloadValue

pub record BaseEvent : Type 0 where
  pub id : String
  pub type : String
  pub timestamp : ℕ
  pub payload : List (String × PayloadValue)

abbrev pub event_type_expense_approved : String
event_type_expense_approved = "expense.approved"

abbrev pub event_type_payment_completed : String
event_type_payment_completed = "payment.completed"

abbrev pub event_type_payment_failed : String
event_type_payment_failed = "payment.failed"

pub record ExpenseApprovedEvent : Type 0 where
  pub base : BaseEvent
  pub expense_id : ℤ
  pub amount : ℤ
  pub user_id : ℤ
  pub currency : String

unfoldable pub new_expense_approved_event : String → ℕ → ℤ → ℤ → ℤ → String → ExpenseApprovedEvent
new_expense_approved_event uuid now expense_id amount user_id currency = record {
  base = record {
    id = uuid;
    type = event_type_expense_approved;
    timestamp = now;
    payload =
        ("expense_id", int expense_id)
        ∷ ("amount", int amount)
        ∷ ("user_id", int user_id)
        ∷ ("currency", str currency)
        ∷ [];
  };
  expense_id = expense_id;
  amount = amount;
  user_id = user_id;
  currency = currency;
}

pub record PaymentCompletedEvent : Type 0 where
  pub base : BaseEvent
  pub payment_id : String
  pub expense_id : ℤ
  pub external_id : String
  pub amount : ℤ
  pub status : String
  pub gateway_payment_id : String

unfoldable pub new_payment_completed_event :
    String → ℕ → String → ℤ → String → ℤ → String → String → PaymentCompletedEvent
new_payment_completed_event uuid now payment_id expense_id external_id amount status
      gateway_payment_id =
    record {
      base = record {
        id = uuid;
        type = event_type_payment_completed;
        timestamp = now;
        payload =
            ("payment_id", str payment_id)
            ∷ ("expense_id", int expense_id)
            ∷ ("external_id", str external_id)
            ∷ ("amount", int amount)
            ∷ ("status", str status)
            ∷ ("gateway_payment_id", str gateway_payment_id)
            ∷ [];
      };
      payment_id = payment_id;
      expense_id = expense_id;
      external_id = external_id;
      amount = amount;
      status = status;
      gateway_payment_id = gateway_payment_id;
    }

pub record PaymentFailedEvent : Type 0 where
  pub base : BaseEvent
  pub payment_id : String
  pub expense_id : ℤ
  pub external_id : String
  pub amount : ℤ
  pub failure_reason : String
  pub retry_count : ℤ

unfoldable pub new_payment_failed_event :
    String → ℕ → String → ℤ → String → ℤ → String → ℤ → PaymentFailedEvent
new_payment_failed_event uuid now payment_id expense_id external_id amount failure_reason
      retry_count =
    record {
      base = record {
        id = uuid;
        type = event_type_payment_failed;
        timestamp = now;
        payload =
            ("payment_id", str payment_id)
            ∷ ("expense_id", int expense_id)
            ∷ ("external_id", str external_id)
            ∷ ("amount", int amount)
            ∷ ("failure_reason", str failure_reason)
            ∷ ("retry_count", int retry_count)
            ∷ [];
      };
      payment_id = payment_id;
      expense_id = expense_id;
      external_id = external_id;
      amount = amount;
      failure_reason = failure_reason;
      retry_count = retry_count;
    }

-- The types that implement the interface `Event`.
pub data Event : Type 0 where
  expense_approved : ExpenseApprovedEvent → Event
  payment_completed : PaymentCompletedEvent → Event
  payment_failed : PaymentFailedEvent → Event

abbrev pub base_of : Event → BaseEvent
base_of (expense_approved e) = e.base
base_of (payment_completed e) = e.base
base_of (payment_failed e) = e.base

unfoldable pub event_type : Event → String
event_type e = (base_of e).type

unfoldable pub event_id : Event → String
event_id e = (base_of e).id

unfoldable pub occurred_at : Event → ℕ
occurred_at e = (base_of e).timestamp

unfoldable pub payload : Event → List (String × PayloadValue)
payload e = (base_of e).payload

-- What `%T` prints.
abbrev pub type_name : Event → String
type_name (expense_approved e) = "*events.ExpenseApprovedEvent"
type_name (payment_completed e) = "*events.PaymentCompletedEvent"
type_name (payment_failed e) = "*events.PaymentFailedEvent"
