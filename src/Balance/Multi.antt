-- ===== src/Balance/Multi.antt =====
-- GetMultiCurrencyBalance of internal/service/balance/balance_multicurrency.go. Each currency is read
-- by a goroutine of its own; `arrive` is the order in which their results come, which is the
-- scheduler's choice. The loop over the results stops at the first error.
use double_entry_ledger_engi.Balance.{get_current_balance}
use double_entry_ledger_engi.Store.{
  Env, Uuid, M, wrap, call, select_codes, reads, pool, CurrencyRow,
}
use double_entry_ledger_engi.Domain.{Balance}
use double_entry_ledger_engi.Decimal.{Decimal}
use double_entry_ledger_engi.Base.{
  String, List, ◌∷◌, if◌then◌else◌, pure, ◌>>=◌, ◌>>◌, same, [], filter, ◌==◌, map,
}

-- A map from currencies to balances: `balances[currency] = balance`
abbrev pub put_balance :
    {D : Type 0} → String → Balance D → List (String × Balance D) → List (String × Balance D)
put_balance currency b [] = (currency, b) ∷ []
put_balance currency b ((c, a) ∷ rest) =
    if same c currency then (c, b) ∷ rest else (c, a) ∷ put_balance currency b rest

module _ {D : Type 0} ⦃dec : Decimal D⦄ (env : Env) where
  -- getAccountCurrencies; that the rows come sorted is lost in the order of arrival.
  unfoldable pub get_account_currencies : Uuid → M D (List String)
  get_account_currencies account = do
    wrap "failed to query account currencies" (call env select_codes)
    rows ←
        reads pool
          (λ db. filter (λ (c : CurrencyRow). c.account_id == account) db.account_currencies)
    pure (map (λ (c : CurrencyRow). c.currency_code) rows)

  -- The loop over the results.
  unfoldable pub collect :
      Uuid → List String → List (String × Balance D) → M D (List (String × Balance D))
  collect account [] balances = pure balances
  collect account (currency ∷ currencies) balances = do
    b ← wrap "failed to compute balance for currency" (get_current_balance env account currency)
    collect account currencies (put_balance currency b balances)

  unfoldable pub get_multi_currency_balance :
      (List String → List String) → Uuid → M D (List (String × Balance D))
  unfolding get_account_currencies collect
  get_multi_currency_balance arrive account = do
    currencies ← wrap "failed to get account currencies" (get_account_currencies account)
    collect account (arrive currencies) []
