-- ===== src/Processor/Frames.antt =====
-- The checks of accounts and balances read the open transaction and write nothing.
use double_entry_ledger_engi.Base.{
  Bool, true, false, String, Option, none, some, List, [], ◌∷◌, arith,
}
use double_entry_ledger_engi.Decimal.{Decimal}
use double_entry_ledger_engi.Domain.{AccountCurrency}
use double_entry_ledger_engi.Store.{Uuid, Env, Db, Runner, AccountRow, SnapshotRow, in_tx, run}
use double_entry_ledger_engi.Store.Reading.{
  OnlyReads, only_reads, bind-OnlyReads, if-OnlyReads, pure-OnlyReads, OnlyReads-KeepsDb,
}
use double_entry_ledger_engi.Store.Frame.{KeepsDb}
use double_entry_ledger_engi.Accounts.{found_account, get_account}
use double_entry_ledger_engi.Balance.{get_snapshot, current_balance, get_current_balance_in_tx}
use double_entry_ledger_engi.Concurrency.{
  locked, lock_parsed, lock_account_for_update, lock_all, lock_multiple_accounts_for_update,
}
use double_entry_ledger_engi.Processor.{EntryRequest}
use double_entry_ledger_engi.Processor.Impacts.{Impact}
use double_entry_ledger_engi.Processor.Validate.{
  check_policy, check_impacts, find_account, check_parsed, check_accounts,
  validate_accounts_for_post,
}

module _ {D : Type 0} ⦃dec : Decimal D⦄ (env : Env) where
  found_account-OnlyReads :
      (id : Uuid) (o : Option AccountRow) → OnlyReads {D = D} (found_account env id o)
  found_account-OnlyReads id none = search only_reads
  found_account-OnlyReads id (some row) = search only_reads

  get_account-OnlyReads : (r : Runner) (id : Uuid) → OnlyReads {D = D} (get_account env r id)
  unfolding get_account
  get_account-OnlyReads r id = search (only_reads, found_account-OnlyReads) depth 14

  get_snapshot-OnlyReads :
      (r : Runner) (f : Db D → Option (SnapshotRow D)) → OnlyReads {D = D} (get_snapshot env r f)
  unfolding get_snapshot run
  get_snapshot-OnlyReads r f = record { same_tables = λ w. ground arith }

  pub current_balance-OnlyReads :
      (r : Runner) (locking : Bool) (id : Uuid) (currency : String)
      → OnlyReads {D = D} (current_balance env r locking id currency)
  unfolding current_balance
  current_balance-OnlyReads r locking id currency =
      search (only_reads, get_snapshot-OnlyReads) depth 20

  locked-OnlyReads : (account : String) (b : Bool) → OnlyReads {D = D} (locked env account b)
  locked-OnlyReads account true = search only_reads
  locked-OnlyReads account false = search only_reads

  lock_parsed-OnlyReads :
      (account : String) (o : Option Uuid) → OnlyReads {D = D} (lock_parsed env account o)
  unfolding lock_parsed
  lock_parsed-OnlyReads account none = search only_reads
  lock_parsed-OnlyReads account (some id) = search (only_reads, locked-OnlyReads) depth 8

  pub lock_account-OnlyReads :
      (account : String) → OnlyReads {D = D} (lock_account_for_update env account)
  unfolding lock_account_for_update
  lock_account-OnlyReads account = search (only_reads, lock_parsed-OnlyReads) depth 8

  lock_all-OnlyReads : (accounts : List String) → OnlyReads {D = D} (lock_all env accounts)
  unfolding lock_all
  lock_all-OnlyReads [] = search only_reads
  lock_all-OnlyReads (account ∷ rest) =
      bind-OnlyReads _ _ (lock_account-OnlyReads account) λ _. lock_all-OnlyReads rest

  pub lock_multiple-OnlyReads :
      (accounts : List String) → OnlyReads {D = D} (lock_multiple_accounts_for_update env accounts)
  unfolding lock_multiple_accounts_for_update
  lock_multiple-OnlyReads accounts = search (only_reads, lock_all-OnlyReads) depth 8

  pub check_policy-OnlyReads :
      (id : Uuid) (account : String) (i : Impact D) (o : Option Bool)
      → OnlyReads {D = D} (check_policy env id account i o)
  unfolding check_policy get_current_balance_in_tx
  check_policy-OnlyReads id account i none = search only_reads
  check_policy-OnlyReads id account i (some allow) =
      search (only_reads, current_balance-OnlyReads) depth 12

  pub check_impacts-OnlyReads :
      (id : Uuid) (account : String) (cs : List AccountCurrency) (is : List (Impact D))
      → OnlyReads {D = D} (check_impacts env id account cs is)
  unfolding check_impacts
  check_impacts-OnlyReads id account cs [] = search only_reads
  check_impacts-OnlyReads id account cs (i ∷ is) =
      bind-OnlyReads _ _
        (if-OnlyReads _ _ _ (check_policy-OnlyReads id account i _) (pure-OnlyReads tt))
        λ _. check_impacts-OnlyReads id account cs is

  pub find_account-OnlyReads :
      (account : String) (id : Uuid) → OnlyReads {D = D} (find_account env account id)
  unfolding find_account
  find_account-OnlyReads account id = record {
    same_tables = λ w. ground (arith, (get_account-OnlyReads in_tx id).same_tables w);
  }

  pub check_parsed-OnlyReads :
      (is : List (Impact D)) (account : String) (o : Option Uuid)
      → OnlyReads {D = D} (check_parsed env is account o)
  unfolding check_parsed
  check_parsed-OnlyReads is account none = search only_reads
  check_parsed-OnlyReads is account (some id) =
      search (only_reads, find_account-OnlyReads, check_impacts-OnlyReads) depth 8

  pub check_accounts-OnlyReads :
      (is : List (Impact D)) (accounts : List String)
      → OnlyReads {D = D} (check_accounts env is accounts)
  unfolding check_accounts
  check_accounts-OnlyReads is [] = search only_reads
  check_accounts-OnlyReads is (account ∷ rest) =
      bind-OnlyReads _ _ (check_parsed-OnlyReads is account _) λ _. check_accounts-OnlyReads is rest

  pub validate_accounts_for_post-OnlyReads :
      (with_locks : Bool) (es : List (EntryRequest D))
      → OnlyReads {D = D} (validate_accounts_for_post env with_locks es)
  unfolding validate_accounts_for_post
  validate_accounts_for_post-OnlyReads with_locks es =
      search (only_reads, lock_multiple-OnlyReads, check_accounts-OnlyReads) depth 8

  pub validate_accounts_for_post-KeepsDb :
      {X : Type 0} (view : Db D → X) (with_locks : Bool) (es : List (EntryRequest D))
      → KeepsDb view (validate_accounts_for_post env with_locks es)
  validate_accounts_for_post-KeepsDb view with_locks es =
      OnlyReads-KeepsDb view _ (validate_accounts_for_post-OnlyReads with_locks es)
