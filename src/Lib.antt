-- ===== src/Lib.antt =====
-- A model of the double-entry ledger engine: the path from an HTTP request to post, settle, cancel or
-- reverse a transaction down to the rows of the PostgreSQL tables, the balances and lists read from
-- them, and the settings of the server.
--
-- Parts and files (paths from the repository's root):
--   Base                    Booleans; Base/Lists lists and their windows, Base/Int integers, and
--                           Base/Results the state-and-error monad of a Go function that returns
--                           `(T, error)` and changes state.
--   Decimal                 github.com/shopspring/decimal as an interface with its documented laws:
--                           a decimal stands for a number of a commutative group. Decimal/Group has
--                           the rules of sums.
--   Domain                  internal/domain: types; Domain/Currency and Domain/Validator are
--                           currency.go and validator.go, Domain/Errors the ValidationErrors.
--                           Domain/Validator/Balanced and Complete prove what the validator accepts.
--   Store                   the tables of migrations/000001_initial_schema.up.sql and the connection:
--                           committed tables, the tables of the open transaction, the calls made so
--                           far, the events published. Store/Frame and Store/Reading are the rules for
--                           what a chain of calls leaves alone, Store/Success for when it succeeds.
--   Ledger, Accounts, Idempotency
--                           ledger_repository.go, account_repository.go and idempotency_repository.go
--                           of internal/infrastructure/postgres; Idempotency/Keys is about the keys,
--                           Accounts/Listing is ListAccounts, Accounts/Atomic and Accounts/Created
--                           are about the creation of accounts.
--   Balance                 internal/service/balance: Balance/Query is the SQL, Balance/Sums and
--                           Balance/Current relate it to the signed sum of the entries, Balance/Multi
--                           is balance_multicurrency.go.
--   Query                   internal/service/query: Query/Rows has the filters, the SQL conditions and
--                           the order. Query/Pages, Listed and Paged prove which window of which list
--                           a page is, Order, Meets and Filtered that it is in order and meets the filter.
--   Concurrency             concurrency_*.go of internal/service/transaction: Concurrency/Sort,
--                           Locks and Texts are the lock order, Locked what is locked, Retries the
--                           retry loop and its delays.
--   Processor               internal/service/transaction: Impacts and Validate are
--                           processor_validate.go, Execute, Post, Settle, Cancel, Reverse and Batch the
--                           files of those names, Write their shared steps. Frames, Atomic, Retried and
--                           Batched prove what failure leaves; Sums, Written, Conserved, Reversals,
--                           Batches and Reachable what becomes of the sum of all entries; Net, Keys and
--                           Overdraft and Refused are about the checks of accounts, Rows and Posted about what a
--                           posting writes, Negation and Eligible about reversals, States and
--                           Completes about the states of a transaction, Succeeds and Accepts about
--                           postings when no call fails, Replay about known keys.
--   Api                     internal/api: Api/Errors is errors/errors.go, Api/Auth middleware/auth.go,
--                           Api/Router router.go, Api/Response what the handlers send, Api/Handlers the
--                           files of handlers with their query parameters in Params, and Api/Texts what
--                           these use of the packages strings and strconv. Statuses is about the codes
--                           of errors, Callers and Guarded about who is let through, Answers about what
--                           an answer tells.
--   Config                  internal/config/config.go: Config is Validate, Config/Load the reading of
--                           the environment. Valid, Accepted, Codes and Whole prove what is accepted.
--   Tests                   whole amounts as decimals, concrete tables, and the theorems applied to them.
--
-- How the parts interact: the processor runs in `M D`, a function of the `World`. Each SQL statement is
-- a `call`, which the environment `Env` may let fail with any SQLSTATE or other error, and then a
-- function on the tables. A statement in a transaction reads and writes `tx`; `begin` copies `db`
-- to `tx`, `commit` copies it back, and what is neither committed nor written through the pool is lost,
-- which is the deferred rollback. The environment also gives the clock, new UUIDs, the reading and
-- writing of UUIDs as text (one reading for uuid.Parse and for PostgreSQL), and whether a context ends
-- while a retry waits. That PostgreSQL refuses to lock the rows of a sum is a fault of that call. Isolation is SERIALIZABLE in
-- the source: no other session's write shows between a begin and its commit, and a conflict is a fault
-- of some call.
--
-- A handler is a function of the `World` as well: it calls a service and makes of its result a status
-- and a body. It takes the bound JSON body or the error of its binding, the path and query parameters
-- as texts, and the functions of `Library` and `Rendering`: reading of decimals, RFC 3339 times and the
-- texts of errors, which all are arbitrary. The two middlewares of authentication see the request and
-- the clock and either answer or let the request on; what the JWT package says of a token is a parameter,
-- and so are the environment variables and time.ParseDuration for the settings. A list of the query
-- service is ordered by time, as one of the orders that PostgreSQL may choose among equal times; the
-- order in which the balances of several currencies arrive is the parameter `arrive`.
--
-- Numbers: times are natural numbers of microseconds (nanoseconds for the delays of retries), the
-- version test compares microseconds as the source does. The random part of a delay is in millionths;
-- a delay that would leave int64 has no value.
-- The exponent of a decimal is an int32, with the wrap-around of its negation. The retry loop is a
-- recursion on the attempts that are left, max_retries at first; nothing else needs fuel.
--
-- Texts are sequences of characters; the case of letters and blanks are those of ASCII, and the
-- length of a text is that of its bytes. Limits and offsets are integers, and atoi refuses what an int64
-- does not hold.
--
-- Not modelled: the health handler and the other middlewares, start-up and shutdown, logging, metrics
-- and traces, the connection pool and the load generator of cmd/trafficgen, which do not write the
-- ledger; the JSON of bodies and metadata; the lengths of VARCHAR columns and the overflow of
-- NUMERIC(28, 8); the deadlocks and waits of row locks, of which only the order is modelled.
pub mod Base
pub mod Decimal
pub mod Domain
pub mod Store
pub mod Ledger
pub mod Idempotency
pub mod Accounts
pub mod Balance
pub mod Concurrency
pub mod Processor
pub mod Query
pub mod Api
pub mod Config
pub mod Tests
