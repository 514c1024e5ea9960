-- ===== src/Accounts/Rows.antt =====
-- The rows of the account tables, and the types of internal/domain/account.go.
use double_entry_ledger_engi.Base.{ℕ, Bool, String, List, [], ◌∷◌, ◌==◌, same, ◌&&◌, if◌then◌else◌}
use double_entry_ledger_engi.Domain.{
  AccountType, AccountCurrency, Metadata, asset, liability, equity, revenue, expense,
}
use double_entry_ledger_engi.Store.{Uuid, AccountRow, CurrencyRow}

pub record Account : Type 0 where
  pub account_id : Uuid
  pub account_type : AccountType
  pub currencies : List AccountCurrency
  pub created_at : ℕ
  pub updated_at : ℕ
  pub metadata : Metadata

pub record CurrencyConfig : Type 0 where
  pub currency_code : String
  pub allow_negative : Bool

pub record CreateAccountRequest : Type 0 where
  pub account_type : AccountType
  pub currencies : List CurrencyConfig
  pub metadata : Metadata

-- The text of an account type.
abbrev pub account_type_text : AccountType → String
account_type_text asset = "asset"
account_type_text liability = "liability"
account_type_text equity = "equity"
account_type_text revenue = "revenue"
account_type_text expense = "expense"
account_type_text (AccountType.unknown s) = s

abbrev pub is_account : Uuid → AccountRow → Bool
is_account id row = row.account_id == id

abbrev pub is_currency : Uuid → String → CurrencyRow → Bool
is_currency id code row = row.account_id == id && same row.currency_code code

abbrev pub account_row : Uuid → ℕ → CreateAccountRequest → AccountRow
account_row id time req = record {
  account_id = id;
  account_type = req.account_type;
  created_at = time;
  updated_at = time;
  metadata = req.metadata;
}

abbrev pub currency_row : Uuid → ℕ → CurrencyConfig → CurrencyRow
currency_row id time c = record {
  account_id = id;
  currency_code = c.currency_code;
  allow_negative = c.allow_negative;
  created_at = time;
}

abbrev pub scan_currency : CurrencyRow → AccountCurrency
scan_currency row = record {
  currency_code = row.currency_code;
  allow_negative = row.allow_negative;
  created_at = row.created_at;
}

abbrev pub scan_account : AccountRow → List AccountCurrency → Account
scan_account row currencies = record {
  account_id = row.account_id;
  account_type = row.account_type;
  currencies = currencies;
  created_at = row.created_at;
  updated_at = row.updated_at;
  metadata = row.metadata;
}

-- UPDATE accounts SET ... WHERE account_id = $3
abbrev pub update_accounts : Uuid → (AccountRow → AccountRow) → List AccountRow → List AccountRow
update_accounts id f [] = []
update_accounts id f (row ∷ rows) =
    (if is_account id row then f row else row) ∷ update_accounts id f rows

abbrev pub set_metadata : Metadata → ℕ → AccountRow → AccountRow
set_metadata metadata time row = record row { metadata = metadata; updated_at = time }
