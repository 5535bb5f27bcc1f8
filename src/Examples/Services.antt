-- ===== src/Examples/Services.antt =====
-- The gateway's pool, the routes, the log and the configuration on concrete data.
use expense_management.Prelude.{
  ◌≤◌, String, [], ◌∷◌, none, Bool, true, ◌≡◌, ◌≢◌, ◌↔◌, ◌⊎◌, refl, pos, str_eq, if◌then◌else◌,
  arith, All,
}
use expense_management.Gateway.Types.{PaymentJob}
use expense_management.Gateway.Pool.{
  Pool, Reach, started, later, move, submit, shutdown, dispatcher_returns, returned, take,
  start_worker_pool,
}
use expense_management.Gateway.Pool.Invariant.{count, accounted}
use expense_management.Gateway.Pool.Conserved.{jobs_conserved}
use expense_management.Gateway.Pool.Shutdown.{Closes, shutdown-Closes}
use expense_management.Gateway.Pool.Drain.{Drained, pool_drains}
use expense_management.Rest.{Present, register_all_routes}
use expense_management.Rest.Guarded.{required_guards, register_all_routes-guarded}
use expense_management.Transport.Logging.{
  Json, json_object, json_string, json_number, json_array, item, no_items, field, no_fields,
  filter_sensitive_json,
}
use expense_management.Transport.Logging.Filtered.{IsClean, filter_sensitive_json-IsClean}
use expense_management.Config.{Config, load_config_from_env}
use expense_management.Config.Validation.{validate_config, validate_server}
use expense_management.Config.Origins.{IsServer}
use expense_management.Config.Laws.{IsDatabase, validate_config_iff}

abbrev job : PaymentJob
job = record { external_id = "exp-1"; amount = pos 20000; payment_id = "pay-1" }

abbrev every_job : PaymentJob → Bool
every_job j = true

-- Two workers over a pool with two places and a queue with one.
abbrev queued : Pool
queued = record start_worker_pool { queue = job ∷ []; submitted = job ∷ [] }

queued-Reach : Reach 2 2 1 queued
queued-Reach = later started (submit job (omega arith))

pool_drains_example : Drained 2 2 queued
pool_drains_example = pool_drains 2 2 1 queued (omega arith) (omega arith) queued-Reach refl

-- The dispatcher returns with the job in its hands.
abbrev lost : Pool
lost = record start_worker_pool {
  dispatcher = returned;
  cancelled = true;
  submitted = job ∷ [];
  dropped = job ∷ [];
}

lost-Reach : Reach 2 2 1 lost
lost-Reach =
    later (later (later queued-Reach (move (take job [] refl refl))) shutdown)
      (dispatcher_returns refl (λ h. cc))

jobs_conserved_example :
    (count every_job lost.submitted ≡ accounted 2 every_job lost)
    × (count every_job lost.processed ≤ count every_job lost.submitted)
    × ((lost.cancelled ≡ true) ⊎ (lost.dropped ≡ []))
jobs_conserved_example = jobs_conserved lost-Reach every_job

shutdown-Closes_example : Closes 2 2 lost
shutdown-Closes_example = shutdown-Closes 2 2 1 lost (omega arith) lost-Reach refl

abbrev all_present : Present
all_present = record {
  webhook_handler = true;
  auth_handler = true;
  user_handler = true;
  expense_handler = true;
  category_handler = true;
  payment_handler = true;
}

register_all_routes-guarded_example :
    All (λ r. r.guards ≡ required_guards r.endpoint) (register_all_routes all_present)
register_all_routes-guarded_example = register_all_routes-guarded all_present

-- {"user": [{"Password": "pass", "age": 7}]}
abbrev request : Json
request = json_object (
    field "user"
      (json_array (
        item
          (json_object
            (field "Password" (json_string "pass") (field "age" (json_number "7") no_fields)))
          no_items))
      no_fields)

filter_sensitive_json-IsClean_example :
    IsClean (filter_sensitive_json request)
    × (IsClean request ↔ (filter_sensitive_json request ≡ request))
    × (filter_sensitive_json (filter_sensitive_json request) ≡ filter_sensitive_json request)
filter_sensitive_json-IsClean_example = filter_sensitive_json-IsClean request

abbrev environment : String → String
environment key = if str_eq key "DB_SOURCE" then "postgresql://u:p@db:5432/expenses" else ""

abbrev configuration : Config
configuration = load_config_from_env environment (λ text. none)

validate_config_iff_example : (validate_config environment (λ url. none) configuration ≡ none) ↔ (
    IsServer (λ url. none) configuration.server
    × (IsDatabase environment (λ url. none) configuration.database
        × (configuration.payment.mock_api_url ≢ "")))
validate_config_iff_example = validate_config_iff environment (λ url. none) configuration

-- One variable is enough.
configuration-accepted : validate_config environment (λ url. none) configuration ≡ none
unfolding validate_config load_config_from_env validate_server
configuration-accepted = refl
