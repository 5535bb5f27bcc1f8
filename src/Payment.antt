-- ===== src/Payment.antt =====
-- internal/payment: the payments of the expenses.
pub mod Entity
pub mod Dto
pub mod Repository
pub mod Postgres
pub mod Service
pub mod Orchestrator
pub mod Webhook
pub mod Handlers
