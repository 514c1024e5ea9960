-- ===== src/Processor/Validate.antt =====
-- validateAccountsForPost of internal/service/transaction/processor_validate.go. A loop over a Go map
-- meets the keys in any order; here it is the order of their first occurrence.
use double_entry_ledger_engi.Base.{
  ⊤, Bool, true, false, String, Option, none, some, List, [], ◌∷◌, ok, err, ◌>>=◌, ◌>>◌, pure,
  raise, same, ◌&&◌, not, if◌then◌else◌,
}
use double_entry_ledger_engi.Decimal.{Decimal}
use double_entry_ledger_engi.Domain.{AccountCurrency, Balance}
use double_entry_ledger_engi.Domain.Errors.{
  invalid_account_id, account_not_found, currency_not_supported,
}
use double_entry_ledger_engi.Store.{Uuid, Env, M, in_tx, validation, insufficient_balance, wrap}
use double_entry_ledger_engi.Accounts.{Account, get_account}
use double_entry_ledger_engi.Balance.{get_current_balance_in_tx}
use double_entry_ledger_engi.Concurrency.{lock_multiple_accounts_for_update}
use double_entry_ledger_engi.Processor.{EntryRequest}
use double_entry_ledger_engi.Processor.Impacts.{Impact, account_ids, balance_impacts}

-- currencyPolicies[code]: of two rows for a code the later one counts.
abbrev pub policy : String → List AccountCurrency → Option Bool
policy code [] = none
policy code (c ∷ cs) = elim (policy code cs) [
  | some later ↦ some later
  | none ↦ if same c.currency_code code then some c.allow_negative else none
]

module _ {D : Type 0} ⦃dec : Decimal D⦄ (env : Env) where
  -- newBalance := balance.AvailableBalance.Add(impact)
  unfoldable pub check_balance : String → Impact D → Balance D → M D ⊤
  check_balance account i balance =
      if dec.is_negative (dec.add balance.available_balance i.amount)
      then raise
          (insufficient_balance account i.currency (dec.abs i.amount) balance.available_balance)
      else pure tt

  unfoldable pub check_policy : Uuid → String → Impact D → Option Bool → M D ⊤
  unfolding check_balance
  check_policy id account i none = raise (validation (currency_not_supported account i.currency))
  check_policy id account i (some allow_negative) =
      if not allow_negative && dec.is_negative i.amount
      then (do
        balance ← wrap "failed to get current balance" (get_current_balance_in_tx env id i.currency)
        check_balance account i balance)
      else pure tt

  -- The inner loop, which skips the keys of other accounts.
  unfoldable pub check_impacts : Uuid → String → List AccountCurrency → List (Impact D) → M D ⊤
  unfolding check_policy
  check_impacts id account currencies [] = pure tt
  check_impacts id account currencies (i ∷ is) = do
    if same i.account_id account
        then check_policy id account i (policy i.currency currencies)
        else pure tt
    check_impacts id account currencies is

  -- Whatever went wrong with the account is reported as an unknown account.
  unfoldable pub find_account : String → Uuid → M D Account
  find_account account id w = elim (get_account env in_tx id w).0 [
    | ok a ↦ (ok a, (get_account env in_tx id w).1)
    | err _ ↦ (err (validation (account_not_found account)), (get_account env in_tx id w).1)
  ]

  unfoldable pub check_parsed : List (Impact D) → String → Option Uuid → M D ⊤
  unfolding find_account check_impacts
  check_parsed impacts account none = raise (validation (invalid_account_id account))
  check_parsed impacts account (some id) = do
    a ← find_account account id
    check_impacts id account a.currencies impacts

  unfoldable pub check_accounts : List (Impact D) → List String → M D ⊤
  unfolding check_parsed
  check_accounts impacts [] = pure tt
  check_accounts impacts (account ∷ rest) = do
    check_parsed impacts account (env.parse account)
    check_accounts impacts rest

  unfoldable pub validate_accounts_for_post : Bool → List (EntryRequest D) → M D ⊤
  unfolding check_accounts
  validate_accounts_for_post with_locks entries = do
    if with_locks then lock_multiple_accounts_for_update env (account_ids entries) else pure tt
    check_accounts (balance_impacts entries) (account_ids entries)

  unfoldable pub validate_accounts_and_balances_with_locking : List (EntryRequest D) → M D ⊤
  unfolding validate_accounts_for_post
  validate_accounts_and_balances_with_locking = validate_accounts_for_post true

  unfoldable pub validate_accounts_and_balances : List (EntryRequest D) → M D ⊤
  unfolding validate_accounts_for_post
  validate_accounts_and_balances = validate_accounts_for_post false
