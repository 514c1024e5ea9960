-- ===== src/Api/Handlers/Accounts.antt =====
-- internal/api/handlers/account_handler.go
use double_entry_ledger_engi.Accounts.Listing.{AccountFilter, list_accounts}
use double_entry_ledger_engi.Api.Handlers.Params.{account_filter, Params, Problem}
use double_entry_ledger_engi.Api.Errors.{Rendering}
use double_entry_ledger_engi.Store.{Env, Uuid, pool}
use double_entry_ledger_engi.Base.{
  String, Bool, List, map, Option, Result, err, if◌then◌else◌, same, none, some, ok, length,
}
use double_entry_ledger_engi.Api.Response.{
  Library, Handler, respond, bad_request, reply, account, accounts, metadata_updated, handle_error,
  problem,
}
use double_entry_ledger_engi.Accounts.{
  CreateAccountRequest, CurrencyConfig, create_account, get_account, update_account_metadata,
}
use double_entry_ledger_engi.Domain.{AccountType, Metadata}

pub record AccountCurrencyConfig : Type 0 where
  pub currency_code : String
  pub allow_negative : Bool

pub record CreateAccountBody : Type 0 where
  pub account_type : AccountType
  pub currencies : List AccountCurrencyConfig
  pub metadata : Metadata

abbrev pub config_of : AccountCurrencyConfig → CurrencyConfig
config_of c = record { currency_code = c.currency_code; allow_negative = c.allow_negative }

abbrev pub account_request : CreateAccountBody → CreateAccountRequest
account_request req = record {
  account_type = req.account_type;
  currencies = map config_of req.currencies;
  metadata = req.metadata;
}

module _ {D : Type 0} (lib : Library D) (env : Env) (r : Rendering D)
    (request_id : Option String) where
  unfoldable pub create_account_handler : Result String CreateAccountBody → Handler D
  create_account_handler (err text) = respond (bad_request "Invalid request format" (some text))
  create_account_handler (ok req) =
      reply (create_account env (account_request req))
        (λ a. record { status = 201; body = account a }) (handle_error r request_id)

  abbrev with_account : String → Option Uuid → (Uuid → Handler D) → Handler D
  with_account text none k =
      respond (bad_request "Invalid account ID format" (some (lib.uuid_error text)))
  with_account text (some id) k = k id

  unfoldable pub get_account_handler : String → Handler D
  get_account_handler text =
      if same text ""
      then respond (bad_request "Account ID is required" none)
      else with_account text (env.parse text) (λ id.
        reply (get_account env pool id) (λ a. record { status = 200; body = account a })
          (handle_error r request_id))

  abbrev list_with : Result Problem AccountFilter → Handler D
  list_with (err (error, details)) = respond (bad_request error (some details))
  list_with (ok f) =
      reply (list_accounts env f)
        (λ found. record { status = 200; body = accounts found (length found) f.limit f.offset })
        (λ e. record {
          status = 500;
          body = problem "Failed to retrieve accounts" (some (r.error_text e));
        })

  unfoldable pub list_accounts_handler : Params → Handler D
  unfolding account_filter
  list_accounts_handler params = list_with (account_filter params)

  abbrev update_bound : Uuid → Result String Metadata → Handler D
  update_bound id (err text) = respond (bad_request "Invalid request format" (some text))
  update_bound id (ok metadata) =
      reply (update_account_metadata env id metadata)
        (λ _. record { status = 200; body = metadata_updated (env.to_string id) })
        (handle_error r request_id)

  unfoldable pub update_account_metadata_handler : String → Result String Metadata → Handler D
  update_account_metadata_handler text bound =
      if same text ""
      then respond (bad_request "Account ID is required" none)
      else with_account text (env.parse text) (λ id. update_bound id bound)
