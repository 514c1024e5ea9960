-- ===== src/Api/Handlers/Balances.antt =====
-- internal/api/handlers/balance_handler.go. `arrive` is the order in which the balances of several
-- currencies come; the time of an answer is that of the environment.
use double_entry_ledger_engi.Balance.Multi.{get_multi_currency_balance}
use double_entry_ledger_engi.Api.Texts.{join}
use double_entry_ledger_engi.Balance.{get_current_balance, get_historical_balance}
use double_entry_ledger_engi.Domain.{Balance}
use double_entry_ledger_engi.Base.{
  Option, String, List, if◌then◌else◌, ℕ, len, same, none, some, ◌==◌, ◌>>=◌, pure,
}
use double_entry_ledger_engi.Api.Errors.{Rendering}
use double_entry_ledger_engi.Store.{Env, Uuid, now, M}
use double_entry_ledger_engi.Api.Response.{
  Library, Handler, Response, reply, respond, bad_request, balance, refuse, handle_error, balances,
}
use double_entry_ledger_engi.Decimal.{Decimal}

module _ {D : Type 0} ⦃dec : Decimal D⦄ (lib : Library D) (env : Env) (r : Rendering D)
    (request_id : Option String) where
  abbrev account_of_text : String → (Uuid → Handler D) → Option Uuid → Handler D
  account_of_text text k none =
      respond (bad_request "Invalid account ID format" (some (lib.uuid_error text)))
  account_of_text text k (some id) = k id

  abbrev balances_now : (List String → List String) → Uuid → M D (List (String × Balance D) × ℕ)
  balances_now arrive id = do
    found ← get_multi_currency_balance env arrive id
    time ← now env
    pure (found, time)

  abbrev all_balances : (List String → List String) → String → Option Uuid → Handler D
  all_balances arrive text none =
      respond (refuse request_id (join "Invalid account ID format: " (lib.uuid_error text)))
  all_balances arrive text (some id) =
      reply (balances_now arrive id) (λ p. record { status = 200; body = balances text p.0 p.1 })
        (handle_error r request_id)

  unfoldable pub get_current_balances_handler : (List String → List String) → String → Handler D
  get_current_balances_handler arrive text =
      if same text ""
      then respond (refuse request_id "Account ID is required")
      else all_balances arrive text (env.parse text)

  abbrev check_currency : String → Handler D → Handler D
  check_currency currency k =
      if len currency == 3
      then k
      else respond (bad_request "Invalid currency format" (some "Currency must be a 3-letter code"))

  -- The checks that both balances of one currency make.
  unfoldable pub one_balance : String → String → (Uuid → Handler D) → Handler D
  one_balance text currency k =
      if same text ""
      then respond (bad_request "Account ID is required" none)
      else if same currency ""
      then respond (bad_request "Currency is required" none)
      else account_of_text text (λ id. check_currency currency (k id)) (env.parse text)

  abbrev shows_balance : Balance D → Response D
  shows_balance b = record { status = 200; body = balance b }

  unfoldable pub get_current_balance_handler : String → String → Handler D
  unfolding one_balance
  get_current_balance_handler text currency =
      one_balance text currency (λ id.
        reply (get_current_balance env id currency) shows_balance (handle_error r request_id))

  abbrev at_time : Uuid → String → Option ℕ → Handler D
  at_time id currency none = respond (
      bad_request "Invalid as_of timestamp format"
        (some "Timestamp must be in RFC3339 format (e.g., 2024-01-15T10:30:00Z)"))
  at_time id currency (some as_of) =
      reply (get_historical_balance env id currency as_of) shows_balance (handle_error r request_id)

  unfoldable pub get_historical_balance_handler : String → String → String → Handler D
  unfolding one_balance
  get_historical_balance_handler text currency as_of = one_balance text currency (λ id.
      if same as_of ""
      then respond (
          bad_request "as_of parameter is required"
            (some "Provide timestamp in RFC3339 format (e.g., 2024-01-15T10:30:00Z)"))
      else at_time id currency (lib.parse_time as_of))
