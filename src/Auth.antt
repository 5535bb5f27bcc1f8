-- ===== src/Auth.antt =====
-- internal/auth: permissions, the middleware that asks for them, and tokens.
pub mod Permissions
pub mod Rbac
pub mod Tokens
pub mod Service
pub mod Postgres
pub mod Handlers
