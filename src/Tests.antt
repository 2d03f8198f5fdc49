-- ===== src/Tests.antt =====
-- Tests: each theorem applied at a concrete input, and runs of the definitions.
mod Amounts
mod Retries
mod Requests
mod Statements
mod Webhooks
mod Merchants
mod Installments
mod Payments
mod Accounts
mod Iterators
mod Limits
mod Paths
