-- ===== src/Accounts/Listing.antt =====
-- ListAccounts of internal/infrastructure/postgres/account_repository.go, a paged read. Accounts of
-- one `created_at` stay in the order of the table, which ORDER BY leaves open.
use double_entry_ledger_engi.Concurrency.{text_le}
use double_entry_ledger_engi.Accounts.{
  Account, scan_account, is_currency, scan_currency, account_type_text,
}
use double_entry_ledger_engi.Base.{
  List, Option, ℤ, Bool, String, ℕ, ◌∷◌, [], if◌then◌else◌, negsuc, true, leb, pos, pure, some,
  ◌>>◌, any, same, ◌==◌, ◌>>=◌, map, none, filter, window, ◌&&◌,
}
use double_entry_ledger_engi.Domain.{AccountType, AccountCurrency}
use double_entry_ledger_engi.Store.{
  AccountRow, CurrencyRow, Env, M, Uuid, wrap, call, select_account, select_codes, reads, pool,
}

-- domain.AccountFilter
pub record AccountFilter : Type 0 where
  pub account_type : Option AccountType
  pub currency_code : Option String
  pub limit : ℤ
  pub offset : ℤ

-- `limit := 100; if filter.Limit > 0 { limit = filter.Limit }`
unfoldable pub account_limit : ℤ → ℕ
account_limit (negsuc n) = 100
account_limit (pos n) = if n == 0 then 100 else n

-- OFFSET stands only where the offset is positive.
unfoldable pub account_offset : ℤ → ℕ
account_offset (negsuc n) = 0
account_offset (pos n) = n

abbrev pub has_type : Option AccountType → AccountRow → Bool
has_type none row = true
has_type (some t) row = same (account_type_text row.account_type) (account_type_text t)

-- The INNER JOIN with `account_currencies`, where the currency is given.
abbrev pub has_currency : List CurrencyRow → Option String → AccountRow → Bool
has_currency currencies none row = true
has_currency currencies (some code) row = any (is_currency row.account_id code) currencies

insert_newest : AccountRow → List AccountRow → List AccountRow
insert_newest r [] = r ∷ []
insert_newest r (s ∷ rows) =
    if leb s.created_at r.created_at then r ∷ s ∷ rows else s ∷ insert_newest r rows

-- ORDER BY a.created_at DESC
unfoldable pub newest_first : List AccountRow → List AccountRow
unfolding insert_newest
newest_first [] = []
newest_first (r ∷ rows) = insert_newest r (newest_first rows)

insert_code : CurrencyRow → List CurrencyRow → List CurrencyRow
insert_code r [] = r ∷ []
insert_code r (s ∷ rows) =
    if text_le r.currency_code s.currency_code then r ∷ s ∷ rows else s ∷ insert_code r rows

-- ORDER BY currency_code, of the rows of one account
unfoldable pub by_code : List CurrencyRow → List CurrencyRow
unfolding insert_code
by_code [] = []
by_code (r ∷ rows) = insert_code r (by_code rows)

abbrev pub with_currencies : (Uuid → List AccountCurrency) → AccountRow → Account
with_currencies currencies row = scan_account row (currencies row.account_id)

module _ {D : Type 0} (env : Env) where
  -- fetchCurrenciesForAccounts: the map from each account to its currencies
  unfoldable pub fetch_currencies_for_accounts : List Uuid → M D (Uuid → List AccountCurrency)
  unfolding by_code
  fetch_currencies_for_accounts ids = do
    wrap "failed to query currencies for accounts" (call env select_codes)
    rows ← reads pool (λ db.
        filter (λ (c : CurrencyRow). any (λ id. c.account_id == id) ids) db.account_currencies)
    pure (λ id. map scan_currency (by_code (filter (λ (c : CurrencyRow). c.account_id == id) rows)))

  -- If no account is found, the empty list is answered without the second query.
  unfoldable pub attach_currencies : List AccountRow → M D (List Account)
  unfolding fetch_currencies_for_accounts
  attach_currencies [] = pure []
  attach_currencies (row ∷ rows) = do
    currencies ← fetch_currencies_for_accounts (map (λ (r : AccountRow). r.account_id) (row ∷ rows))
    pure (map (with_currencies currencies) (row ∷ rows))

  unfoldable pub list_accounts : AccountFilter → M D (List Account)
  unfolding newest_first attach_currencies
  list_accounts f = do
    wrap "failed to query accounts" (call env select_account)
    rows ← reads pool (λ db. window (account_offset f.offset) (account_limit f.limit) (
        newest_first (
          filter
            (λ row.
              has_currency db.account_currencies f.currency_code row && has_type f.account_type row)
            db.accounts)))
    attach_currencies rows
