-- ===== src/Tests/Posting.antt =====
-- The theorems on posting at concrete requests.
use double_entry_ledger_engi.Processor.Refused.{check_policy-RefusesLockedSums}
use double_entry_ledger_engi.Concurrency.Locked.{IsLockable, lock_multiple_accounts_for_update-All}
use double_entry_ledger_engi.Processor.Rows.{AreRowsOf}
use double_entry_ledger_engi.Processor.Posted.{
  add_posting, row_of_request, execute_post_transaction-AreRowsOf,
}
use double_entry_ledger_engi.Processor.Retried.{ledger}
use double_entry_ledger_engi.Idempotency.{record_success, insert_key_row, compare_existing}
use double_entry_ledger_engi.Processor.Write.{record_key, ignore}
use double_entry_ledger_engi.Ledger.{
  insert_transaction_row, insert_row, entry_of, insert_entries, insert_entry_row, check_entry,
  check_account,
}
use double_entry_ledger_engi.Processor.Execute.{execute_post_transaction, write_post}
use double_entry_ledger_engi.Processor.Overdraft.{IsCovered, validate_accounts_for_post-IsCovered}
use double_entry_ledger_engi.Processor.Reversals.{reverse-total}
use double_entry_ledger_engi.Processor.Reverse.{reverse_transaction_uuid}
use double_entry_ledger_engi.Processor.Impacts.{
  add_impact, account_ids, insert_id, balance_impacts, impacts_from, Impact,
}
use double_entry_ledger_engi.Concurrency.{
  lock_multiple_accounts_for_update, lock_all, lock_account_for_update, lock_parsed, sort_strings,
  insert_text, unique_strings, unique_after,
}
use double_entry_ledger_engi.Processor.Batches.{post_batch-total}
use double_entry_ledger_engi.Processor.Conserved.{post_transaction-total}
use double_entry_ledger_engi.Processor.Reachable.{Reaches-balanced, after, here, post}
use double_entry_ledger_engi.Base.{
  ◌∷◌, ◌≡◌, [], All, true, refl, none, map, ℕ, List, some, false, err,
}
use double_entry_ledger_engi.Domain.{debit, credit, settled, Transaction}
use double_entry_ledger_engi.Accounts.{get_account}
use double_entry_ledger_engi.Processor.Batch.{post_batch}
use double_entry_ledger_engi.Tests.Setup.{
  pay_request, world_of, empty_db, entry_request, test_env, test_validator, reversal_req, one_db,
}
use double_entry_ledger_engi.Processor.Post.{post_transaction}
use double_entry_ledger_engi.Tests.Amounts.{Amount, amount_laws}
use double_entry_ledger_engi.Store.{World, run, Uuid, EntryRow, Env, Error, sum_settled, pg_error}
use double_entry_ledger_engi.Processor.Sums.{total}
use double_entry_ledger_engi.Processor.{
  PostTransactionRequest, posted_transaction, entry_requests_to_ledger_inputs,
}
use double_entry_ledger_engi.Processor.Validate.{
  validate_accounts_for_post, check_accounts, check_parsed, find_account, check_impacts,
  check_policy, check_balance, validate_accounts_and_balances_with_locking,
}
use std.Int.{pos, negsuc, ◌+ℤ◌}
use double_entry_ledger_engi.Tests.Amounts.{amount_decimal}

abbrev start : World Amount
start = world_of empty_db

validate_accounts_for_post-IsCovered_example :
    All (IsCovered amount_laws test_env empty_db) (balance_impacts pay_request.entries)
unfolding validate_accounts_for_post check_accounts check_parsed find_account get_account
    check_impacts check_policy check_balance lock_multiple_accounts_for_update lock_all
    lock_account_for_update lock_parsed sort_strings insert_text unique_strings unique_after
    account_ids insert_id balance_impacts impacts_from add_impact run ◌+ℤ◌
validate_accounts_for_post-IsCovered_example =
    validate_accounts_for_post-IsCovered amount_laws test_env true pay_request.entries start
      (λ id c. tt) refl

Reaches-balanced_example :
    total amount_laws (post_transaction test_env test_validator 500 pay_request start).1.db ≡ pos 0
Reaches-balanced_example =
    Reaches-balanced test_env test_validator 500 amount_laws start
      (post_transaction test_env test_validator 500 pay_request start).1
      (after (post_transaction test_env test_validator 500 pay_request start).1 (here start)
        (post pay_request start))
      refl

post_transaction-total_example :
    total amount_laws (post_transaction test_env test_validator 500 pay_request start).1.db ≡ pos 0
post_transaction-total_example =
    post_transaction-total amount_laws test_env test_validator 500 pay_request start

reverse-total_example :
    total amount_laws
      (reverse_transaction_uuid test_env test_validator 500 7 reversal_req
        (world_of (one_db settled))).1.db
    ≡ pos 0
unfolding ◌+ℤ◌
reverse-total_example =
    reverse-total amount_laws test_env test_validator 500 7 reversal_req (world_of (one_db settled))

post_batch-total_example :
    total amount_laws (post_batch test_env test_validator 500 (pay_request ∷ []) start).1.db ≡ pos 0
post_batch-total_example =
    post_batch-total amount_laws test_env test_validator 500 (pay_request ∷ []) start

-- A request of cash that is not there.
abbrev overdraft : PostTransactionRequest Amount
overdraft = record pay_request {
  entries = entry_request "cash" debit ∷ entry_request "bank" credit ∷ [];
}

-- The answer to the request.
abbrev paid : Transaction Amount
paid =
    posted_transaction test_env pay_request 117 18 none
      (map (entry_of test_env 120 117 18) (entry_requests_to_ledger_inputs pay_request.entries))

execute_post_transaction-AreRowsOf_example :
    (id : Uuid) × (posted_at : ℕ) × (rows : List (EntryRow Amount)) × (ledger
        (execute_post_transaction test_env 500 pay_request start).1.db
      ≡ ledger (add_posting empty_db (row_of_request pay_request id posted_at) rows))
    × AreRowsOf test_env id (entry_requests_to_ledger_inputs pay_request.entries) rows
unfolding execute_post_transaction write_post insert_transaction_row insert_row insert_entries
    insert_entry_row check_entry check_account record_key ignore record_success insert_key_row
    compare_existing validate_accounts_and_balances_with_locking validate_accounts_for_post
    check_accounts check_parsed find_account get_account check_impacts check_policy check_balance
    lock_multiple_accounts_for_update lock_all lock_account_for_update lock_parsed sort_strings
    insert_text unique_strings unique_after account_ids insert_id balance_impacts impacts_from
    add_impact run ◌+ℤ◌
execute_post_transaction-AreRowsOf_example =
    execute_post_transaction-AreRowsOf test_env 500 pay_request start paid refl

lock_multiple_accounts_for_update-All_example :
    All (IsLockable test_env empty_db) ("cash" ∷ "bank" ∷ "cash" ∷ [])
unfolding lock_multiple_accounts_for_update lock_all lock_account_for_update lock_parsed
    sort_strings insert_text unique_strings unique_after run
lock_multiple_accounts_for_update-All_example =
    lock_multiple_accounts_for_update-All test_env ("cash" ∷ "bank" ∷ "cash" ∷ []) start refl

-- PostgreSQL: the locked sums are refused, and no other call fails.
abbrev refusing_env : Env
refusing_env = record test_env {
  fault = λ n c. elim c [ sum_settled true from_snapshot ↦ some (pg_error "0A000") | _ ↦ none ];
}

abbrev withdrawal : Impact Amount
withdrawal = record { account_id = "bank"; currency = "USD"; amount = negsuc 99 }

check_policy-RefusesLockedSums_example :
    (e : Error Amount) × ((check_policy refusing_env 2 "bank" withdrawal (some false) start).0
      ≡ err e)
check_policy-RefusesLockedSums_example =
    check_policy-RefusesLockedSums refusing_env 2 "bank" withdrawal start (λ n s. refl) refl
