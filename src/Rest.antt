-- ===== src/Rest.antt =====
-- internal/transport/rest: the routes (router.go) and the health checks (health.go).
--
-- github.com/go-chi/chi, which matches a request against the routes, is not part of this repository.
-- A route is what is registered: a method, a pattern, the middleware in its order, and the handler.
pub mod Guarded
use expense_management.Prelude.{
  ℕ, ◌-◌, ◌/◌, String, ◌<>◌, List, [], ◌∷◌, ◌++◌, Option, none, some, Bool, true, false, map,
  if◌then◌else◌,
}
use expense_management.Errors.{GoError, error_text}
use expense_management.Transport.{Response, json}
use expense_management.Transport.Middleware.{Method, get, post, patch}

pub data Guard : Type 0 where
  auth_guard approve_guard reject_guard retry_guard : Guard

-- The handlers that are registered under /api/v1.
pub data Endpoint : Type 0 where
  health ping payment_callback login refresh logout categories current_user : Endpoint
  create_expense get_all_expenses get_expense approve_expense reject_expense retry_payment :
      Endpoint

pub record Route : Type 0 where
  pub method : Method
  pub pattern : String
  pub guards : List Guard
  pub endpoint : Endpoint

abbrev pub handle : Method → String → Endpoint → List Route
handle method pattern endpoint =
    record { method = method; pattern = pattern; guards = []; endpoint = endpoint } ∷ []

-- `Route(prefix, …)`
abbrev pub route : String → List Route → List Route
route prefix = map {A = Route} (λ r. record r { pattern = prefix <> r.pattern })

-- A group that begins with `Use(guard)`.
abbrev pub group : Guard → List Route → List Route
group guard = map {A = Route} (λ r. record r { guards = guard ∷ r.guards })

-- `if handler != nil { … }`
abbrev pub when_present : Bool → List Route → List Route
when_present present routes = if present then routes else []

-- Which handlers are not nil.
pub record Present : Type 0 where
  pub webhook_handler : Bool
  pub auth_handler : Bool
  pub user_handler : Bool
  pub expense_handler : Bool
  pub category_handler : Bool
  pub payment_handler : Bool

expense_routes : List Route
expense_routes =
    handle post "/" create_expense
    ++ handle get "/" get_all_expenses
    ++ handle get "/{id}" get_expense
    ++ group approve_guard (handle patch "/{id}/approve" approve_expense)
    ++ group reject_guard (handle patch "/{id}/reject" reject_expense)

protected_routes : Present → List Route
unfolding expense_routes
protected_routes p =
    when_present p.user_handler (handle get "/users/me" current_user)
    ++ (when_present p.expense_handler (route "/expenses" expense_routes)
        ++ when_present p.payment_handler
            (group retry_guard (handle post "/payment/retry" retry_payment)))

abbrev pub health_routes : List Route
health_routes = handle get "/health" health ++ handle get "/ping" ping

abbrev pub auth_routes : List Route
auth_routes =
    route "/auth"
      (handle post "/login" login ++ handle post "/refresh" refresh ++ handle post "/logout" logout)

-- What is mounted under /api/v1.
api_routes : Present → List Route
unfolding protected_routes
api_routes p =
    health_routes
    ++ (when_present p.webhook_handler (handle post "/payment/callback" payment_callback)
        ++ (when_present p.auth_handler auth_routes
            ++ (when_present p.category_handler (handle get "/categories" categories)
                ++ when_present p.auth_handler (group auth_guard (protected_routes p)))))

unfoldable pub register_all_routes : Present → List Route
unfolding api_routes
register_all_routes p = route "/api/v1" (api_routes p)

pub data HealthStatus : Type 0 where
  healthy unhealthy : HealthStatus

pub record CheckEntry : Type 0 where
  pub status : HealthStatus
  pub message : String
  pub checked_at : ℕ
  pub duration_ms : ℕ

-- The one component is "postgres".
pub record HealthResponse : Type 0 where
  pub status : HealthStatus
  pub checked_at : ℕ
  pub postgres : CheckEntry

abbrev entry_of : (ℕ → ℕ) → Option GoError → CheckEntry
entry_of clock none = record {
  status = healthy;
  message = "";
  checked_at = clock 1;
  duration_ms = (clock 2 - clock 0) / 1000000;
}
entry_of clock (some e) = record {
  status = unhealthy;
  message = error_text e;
  checked_at = clock 1;
  duration_ms = (clock 2 - clock 0) / 1000000;
}

abbrev status_code : HealthStatus → ℕ
status_code healthy = 200
status_code unhealthy = 503

-- `PingContext`'s error is the argument.
unfoldable pub health_check : (ℕ → ℕ) → Option GoError → Response HealthResponse
unfolding error_text
health_check clock pinged =
    let entry = entry_of clock pinged in
    record {
      status = status_code entry.status;
      body = json (record { status = entry.status; checked_at = clock 3; postgres = entry });
    }
