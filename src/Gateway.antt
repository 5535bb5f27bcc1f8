-- ===== src/Gateway.antt =====
-- internal/paymentgateway: the client of the payment gateway and its workers.
pub mod Types
pub mod Pool
pub mod Client
pub mod Worker
