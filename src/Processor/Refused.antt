-- ===== src/Processor/Refused.antt =====
-- What the lock of the balance query does to an account that must not become negative.
use double_entry_ledger_engi.Processor.Impacts.{Impact}
use double_entry_ledger_engi.Processor.Validate.{check_policy}
use double_entry_ledger_engi.Balance.{
  get_current_balance_in_tx, current_balance, get_snapshot, compute_settled_balance,
  latest_snapshot,
}
use double_entry_ledger_engi.Base.{
  ℕ, Bool, String, true, ◌≡◌, err, some, false, suc, Option-cases, arith, inl, inr,
}
use double_entry_ledger_engi.Decimal.{Decimal}
use double_entry_ledger_engi.Store.{
  Env, Error, wrapped, driver, run, Uuid, pg_error, sum_settled, World, select_snapshot,
}

-- PostgreSQL refuses FOR UPDATE in a query with aggregate functions, with feature_not_supported.
abbrev pub RefusesLockedSums : Env → Type 0
RefusesLockedSums env =
    (n : ℕ) (from_snapshot : Bool)
    → env.fault n (sum_settled true from_snapshot) ≡ some (pg_error "0A000")

abbrev locked_error : {D : Type 0} → Error D
locked_error =
    wrapped "failed to compute settled balance"
      (wrapped "failed to query settled balance" (driver (pg_error "0A000")))

module _ {D : Type 0} ⦃dec : Decimal D⦄ (env : Env) where
  locked_balance_fails :
      (id : Uuid) (currency : String) (w : World D)
      → RefusesLockedSums env
      → (e : Error D) × ((get_current_balance_in_tx env id currency w).0 ≡ err e)
  unfolding get_current_balance_in_tx current_balance get_snapshot compute_settled_balance run
  locked_balance_fails id currency w refuses =
      let with_snapshot = refuses (suc w.tick) true in
      let without = refuses (suc w.tick) false in
      elim (Option-cases (env.fault w.tick select_snapshot)) [
        | inl f ↦ elim (Option-cases (latest_snapshot w.tx id currency)) [
          | inl n ↦ (locked_error, ground arith)
          | inr (s, e) ↦ (locked_error, ground arith)
        ]
        | inr (x, f) ↦ (locked_error, ground arith)
      ]

  -- On a database that refuses to lock the rows of a sum, as PostgreSQL does, no decrease of an account
  -- that must not become negative passes the check, whatever its balance is.
  pub check_policy-RefusesLockedSums :
      (id : Uuid) (account : String) (i : Impact D) (w : World D)
      → RefusesLockedSums env
      → dec.is_negative i.amount ≡ true
      → (e : Error D) × ((check_policy env id account i (some false) w).0 ≡ err e)
  unfolding check_policy run
  check_policy-RefusesLockedSums id account i w refuses negative =
      let (e, failed) = locked_balance_fails id i.currency w refuses in
      (wrapped "failed to get current balance" e, ground arith)
