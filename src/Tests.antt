-- ===== src/Tests.antt =====
-- Concrete runs of the ledger.
mod Amounts
mod Setup
mod Posting
mod Ledgers
mod Pure
mod Accounts
mod Queries
mod Http
mod Guards
mod Settings
mod Accepting
