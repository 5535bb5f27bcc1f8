-- ===== src/Lib.antt =====
-- The expense-management service: its expenses, their payments, and who may do what.
--
-- An employee creates an expense, which is approved at once when it is small and by a manager
-- otherwise; an approval publishes an event, whose handler creates a payment and hands it to the
-- payment gateway's client; a worker of the client posts the outcome to the webhook, which stores it
-- and publishes an event that completes the expense.
--
--   Prelude      tests, lists, 64-bit integers, texts, and actions that may fail
--   Errors       internal/errors.go
--   Validation   internal/core/common/validation/validation.go
--   Transport    internal/transport/base_handler.go, internal/context.go: what handlers answer; and
--                internal/transport/middleware: logging.go (Logging), cors.go and recovery.go
--                (Middleware)
--   Auth         internal/auth: permission_checker.go and the user's permissions (Permissions),
--                rbac_authorization.go (Rbac), the tokens of service.go (Tokens), dto.go and the rest
--                of service.go (Service), postgres/auth.go (Postgres), handler.go (Handlers)
--   Config       internal/config.go: what is read, and the checks (Validation; their laws
--                are in Origins and Laws)
--   User         internal/user, and internal/core/datamodel/user
--   Database     gorm over Postgres, as a table with laws; Memory is a table that keeps them
--   Events       internal/core/events: the events, and the bus (Bus)
--   World        the state that the services share, and what a call reads from outside
--   Expense      internal/expense: expense.go (Entity), dto.go (Dto, Query), service.go (Service, and
--                its RepositoryAPI as Repository), postgres/expense.go (Postgres), handler.go
--                (Handlers); sequences of the service's calls are History
--   Payment      internal/payment: payment.go (Entity), dto.go (Dto), service.go (Service, and its
--                RepositoryAPI as Repository), postgres/payment.go (Postgres), orchestrator.go and
--                event_handler.go (Orchestrator), webhook_handler.go (Webhook), handler.go (Handlers)
--   Gateway      internal/paymentgateway/client.go (Client, Worker, and its goroutines as Pool) and
--                internal/core/datamodel/paymentgateway/types.go (Types)
--   Category     internal/category, with postgres/category.go (Postgres)
--   Rest         internal/transport/rest: the routes and the health check
--   Examples     the theorems on concrete data
--
-- A function of the code is the definition of its name in snake case, in the module of its file. An
-- operation is a function from a state to a result and a new state, so that what was written before
-- an error stays written. The state is a record: the database, the client's queue of jobs, and the
-- goroutines that the bus has started and that have not run. The readings of the clock, the UUIDs and
-- the gateway's answers are arguments. The services are written over their repository interfaces,
-- records of operations with laws, and the Postgres repositories are shown to keep these laws from
-- those of a table. ILIKE is a parameter too.
--
-- The goroutines of the gateway's client are a step relation over one state, so that a theorem on
-- what can be reached holds for every interleaving; so are the calls of the expense service,
-- whose UpdateExpenseStatus, which no handler calls, is outside of it. A function that may panic
-- answers a value for that, which the recovery turns into a 500. The library of tokens, bcrypt,
-- `url.Parse`, `time.ParseDuration`, what `database/sql` answers to a condition, and the codec of
-- JSON are parameters, with what their documentation says as laws where a theorem needs it;
-- Examples has a library of tokens that keeps its laws.
--
-- int64 and int are integers with the wrap-around of 64 bits where the code computes with them. Fuel
-- is used to print a decimal number, which has no more digits than the fuel, and in the proof that
-- the pool drains, where it is the number of moves that are left.
--
-- Not modelled: the commands under cmd, whose code is wiring, migrations and seeding; the middleware
-- that writes the log; the pages of Swagger; the logger; and the generated code of pkg/openapi.
pub mod Prelude
pub mod Errors
pub mod Validation
pub mod Transport
pub mod Auth
pub mod Config
pub mod User
pub mod Expense
pub mod Database
pub mod Events
pub mod Gateway
pub mod World
pub mod Payment
pub mod Category
pub mod Rest
pub mod Examples
