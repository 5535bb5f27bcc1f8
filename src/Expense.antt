-- ===== src/Expense.antt =====
-- internal/expense: the expenses of the service.
pub mod Entity
pub mod History
pub mod Dto
pub mod Query
pub mod Repository
pub mod Handlers
pub mod Postgres
pub mod Service
