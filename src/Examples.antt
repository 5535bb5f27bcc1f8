-- ===== src/Examples.antt =====
-- Runs of the theorems on concrete data: tables in memory, and a bus with one handler of each event.
mod Data
mod Expenses
mod Histories
mod Payments
mod Others
mod Tokens
mod Accounts
mod Access
mod Services
