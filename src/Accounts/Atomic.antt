-- ===== src/Accounts/Atomic.antt =====
-- Failure of CreateAccount leaves the committed tables as they were.
use double_entry_ledger_engi.Store.Frame.{
  KeepsDb, IsAtomic, keeps_db, bind-IsAtomic, if-IsAtomic, pure-KeepsDb, KeepsDb-IsAtomic,
  wrap-KeepsDb, begin-KeepsDb, raise-KeepsDb, new_uuid-KeepsDb, now-KeepsDb, commit_then-IsAtomic,
  pure-NeverFails, bind-KeepsDb,
}
use double_entry_ledger_engi.Accounts.{
  create_account, create_in_tx, insert_account_row, insert_currencies, insert_currency_row,
  CreateAccountRequest, CurrencyConfig, account_row, currency_row, scan_currency,
}
use double_entry_ledger_engi.Store.{Db, Env, CurrencyRow, Uuid, AccountRow}
use double_entry_ledger_engi.Base.{List, ℕ, [], ◌∷◌}

module _ {D X : Type 0} (view : Db D → X) (env : Env) where
  insert_account_row-KeepsDb : (row : AccountRow) → KeepsDb view (insert_account_row env row)
  unfolding insert_account_row
  insert_account_row-KeepsDb row = search keeps_db depth 12

  insert_currency_row-KeepsDb : (row : CurrencyRow) → KeepsDb view (insert_currency_row env row)
  unfolding insert_currency_row
  insert_currency_row-KeepsDb row = search keeps_db depth 12

  insert_currencies-KeepsDb :
      (id : Uuid) (time : ℕ) (cs : List CurrencyConfig)
      → KeepsDb view (insert_currencies env id time cs)
  unfolding insert_currencies
  insert_currencies-KeepsDb id time [] = pure-KeepsDb view []
  insert_currencies-KeepsDb id time (c ∷ cs) =
      bind-KeepsDb view _ _
        (wrap-KeepsDb view _ _ (insert_currency_row-KeepsDb (currency_row id time c)))
        λ _.
          bind-KeepsDb view _ _ (insert_currencies-KeepsDb id time cs)
            λ rest. pure-KeepsDb view (scan_currency (currency_row id time c) ∷ rest)

  create_in_tx-IsAtomic : (req : CreateAccountRequest) → IsAtomic view (create_in_tx env req)
  unfolding create_in_tx
  create_in_tx-IsAtomic req =
      bind-IsAtomic view _ _ (wrap-KeepsDb view _ _ (begin-KeepsDb view env)) λ _.
        bind-IsAtomic view _ _ (new_uuid-KeepsDb view env) λ id.
          bind-IsAtomic view _ _ (now-KeepsDb view env) λ time.
            bind-IsAtomic view _ _
              (wrap-KeepsDb view _ _ (insert_account_row-KeepsDb (account_row id time req)))
              λ _.
                bind-IsAtomic view _ _ (insert_currencies-KeepsDb id time req.currencies)
                  λ currencies. commit_then-IsAtomic view env _ _ (pure-NeverFails _)

  -- Creating an account returns an error only with the committed tables as they were.
  pub create_account-IsAtomic :
      (req : CreateAccountRequest) → IsAtomic view (create_account env req)
  unfolding create_account
  create_account-IsAtomic req =
      if-IsAtomic view _ _ _
        (if-IsAtomic view _ _ _ (KeepsDb-IsAtomic view _ (raise-KeepsDb view _))
          (create_in_tx-IsAtomic req))
        (KeepsDb-IsAtomic view _ (raise-KeepsDb view _))
