-- ===== src/Api/Handlers.antt =====
-- internal/api/handlers over the services. What gin makes of a request body is the argument `bound`:
-- the request, or the text of its error. Logs and metrics are left out.
pub mod Answers
pub mod Params
pub mod Transactions
pub mod Accounts
pub mod Balances
