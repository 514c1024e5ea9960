-- ===== src/Tests/Accounts.antt =====
-- The theorems on the creation of accounts at a concrete request.
use double_entry_ledger_engi.Accounts.Created.{
  add_account, create_account-add_account, account_of_request,
}
use double_entry_ledger_engi.Accounts.Atomic.{create_account-IsAtomic}
use double_entry_ledger_engi.Tests.Setup.{test_env, world_of, empty_db}
use double_entry_ledger_engi.Tests.Amounts.{Amount}
use double_entry_ledger_engi.Store.{Db, run}
use double_entry_ledger_engi.Domain.{asset, account_type_is_valid}
use double_entry_ledger_engi.Store.Frame.{IsAtomic}
use double_entry_ledger_engi.Accounts.{
  Account, CreateAccountRequest, create_account, CurrencyConfig, create_in_tx, scan_account,
  account_row, insert_account_row, insert_currencies, insert_currency_row, scan_currency,
  currency_row,
}
use double_entry_ledger_engi.Base.{String, false, ◌∷◌, [], map, none, ◌≡◌, true, is_empty, refl}

abbrev currency_config : String → CurrencyConfig
currency_config code = record { currency_code = code; allow_negative = false }

abbrev two_currencies : CreateAccountRequest
two_currencies = record {
  account_type = asset;
  currencies = currency_config "USD" ∷ currency_config "EUR" ∷ [];
  metadata = none;
}

create_account-IsAtomic_example :
    IsAtomic (λ (db : Db Amount). db) (create_account test_env two_currencies)
create_account-IsAtomic_example = create_account-IsAtomic (λ db. db) test_env two_currencies

abbrev created : Account
created =
    scan_account (account_row 111 12 two_currencies)
      (map scan_currency (map (currency_row 111 12) two_currencies.currencies))

create_account-add_account_example :
    (account_type_is_valid asset ≡ true)
    × (is_empty two_currencies.currencies ≡ false)
    × ((create_account test_env two_currencies (world_of empty_db)).1.db
        ≡ add_account empty_db 111 12 two_currencies)
    × (created ≡ account_of_request 111 12 two_currencies)
unfolding create_account create_in_tx insert_account_row insert_currencies insert_currency_row run
    account_type_is_valid
create_account-add_account_example =
    create_account-add_account test_env two_currencies (world_of empty_db) created refl
