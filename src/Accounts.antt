-- ===== src/Accounts.antt =====
-- internal/infrastructure/postgres/account_repository.go: creating, reading and updating accounts.
mod Rows
pub mod Atomic
pub mod Created
pub mod Listing
pub use Rows.*
use double_entry_ledger_engi.Base.{
  ℕ, ⊤, Bool, true, false, String, Option, none, some, List, [], ◌∷◌, ◌++◌, map, Result, ok, err,
  ◌>>=◌, ◌>>◌, pure, raise, not, ◌==◌, same, ◌&&◌, if◌then◌else◌, filter, find, any, is_empty,
}
use double_entry_ledger_engi.Domain.{AccountType, account_type_is_valid, AccountCurrency, Metadata}
use double_entry_ledger_engi.Store.{
  Uuid, AccountRow, CurrencyRow, Db, Error, Env, M, Runner, pool, in_tx, reads, write_tx,
  write_pool, call, now, new_uuid, begin, commit, wrap, driver, pg_error, message, no_rows,
  select_account, select_currencies, insert_account, insert_currency, update_account,
}
use double_entry_ledger_engi.Ledger.{unique_violation}

module _ {D : Type 0} (env : Env) where
  -- The primary key of `accounts`.
  unfoldable pub insert_account_row : AccountRow → M D ⊤
  insert_account_row row = do
    call env insert_account
    taken ← reads in_tx (λ db. any (is_account row.account_id) db.accounts)
    if taken
        then raise (driver (pg_error unique_violation))
        else write_tx (λ db. record db { accounts = db.accounts ++ row ∷ [] })

  -- PRIMARY KEY (account_id, currency_code)
  unfoldable pub insert_currency_row : CurrencyRow → M D ⊤
  insert_currency_row row = do
    call env insert_currency
    taken ←
        reads in_tx (λ db. any (is_currency row.account_id row.currency_code) db.account_currencies)
    if taken
        then raise (driver (pg_error unique_violation))
        else write_tx (λ db. record db { account_currencies = db.account_currencies ++ row ∷ [] })

  -- The loop over the currencies of the request.
  unfoldable pub insert_currencies : Uuid → ℕ → List CurrencyConfig → M D (List AccountCurrency)
  unfolding insert_currency_row
  insert_currencies id time [] = pure []
  insert_currencies id time (c ∷ cs) = do
    wrap "failed to insert account currency" (insert_currency_row (currency_row id time c))
    rest ← insert_currencies id time cs
    pure (scan_currency (currency_row id time c) ∷ rest)

  unfoldable pub create_in_tx : CreateAccountRequest → M D Account
  unfolding insert_account_row insert_currencies
  create_in_tx req = do
    wrap "failed to begin transaction" (begin env)
    id ← new_uuid env
    time ← now env
    wrap "failed to insert account" (insert_account_row (account_row id time req))
    currencies ← insert_currencies id time req.currencies
    wrap "failed to commit transaction" (commit env)
    pure (scan_account (account_row id time req) currencies)

  unfoldable pub create_account : CreateAccountRequest → M D Account
  unfolding create_in_tx
  create_account req =
      if account_type_is_valid req.account_type
      then if is_empty req.currencies
        then raise (message "at least one currency must be specified" "")
        else create_in_tx req
      else raise (message "invalid account type" (account_type_text req.account_type))

  abbrev pub found_account : Uuid → Option AccountRow → M D AccountRow
  found_account id none = raise (message "account not found" (env.to_string id))
  found_account id (some row) = pure row

  -- getAccount; the currencies come in the order of the table, since the code builds a map of them.
  unfoldable pub get_account : Runner → Uuid → M D Account
  get_account r id = do
    wrap "failed to query account" (call env select_account)
    row ← reads r (λ db. find (is_account id) db.accounts)
    account ← found_account id row
    wrap "failed to query account currencies" (call env select_currencies)
    rows ← reads r (λ db. filter (λ (c : CurrencyRow). c.account_id == id) db.account_currencies)
    pure (scan_account account (map scan_currency rows))

  -- The number of rows that the UPDATE has affected is 0 for an unknown account.
  unfoldable pub update_account_metadata : Uuid → Metadata → M D ⊤
  update_account_metadata id metadata = do
    time ← now env
    wrap "failed to update account metadata" (call env update_account)
    known ← reads pool (λ db. any (is_account id) db.accounts)
    if known
        then write_pool (λ db. record db {
          accounts = update_accounts id (set_metadata metadata time) db.accounts;
        })
        else raise (message "account not found" (env.to_string id))
