-- ===== src/Tests/Ledgers.antt =====
-- The theorems on atomicity, states, balances and keys at concrete tables.
use double_entry_ledger_engi.Processor.{ReversalRequest}
use double_entry_ledger_engi.Processor.Eligible.{IsReversible, not_reversible-final}
use double_entry_ledger_engi.Processor.Batched.{post_batch-IsAtomic}
use double_entry_ledger_engi.Balance.Current.{
  live_balance, settled_balance_of, get_current_balance-live_balance,
}
use double_entry_ledger_engi.Processor.Replay.{post_transaction-replay}
use double_entry_ledger_engi.Idempotency.Keys.{record_success-taken, record_success-find}
use double_entry_ledger_engi.Processor.Completes.{pending-completes, shown}
use double_entry_ledger_engi.Processor.States.{
  not_pending-final, cancel-as_cancelled, settle-as_settled, as_settled, with_changed, as_cancelled,
}
use double_entry_ledger_engi.Ledger.{
  get_transaction_header_for_update, query_header, scan_entry, update_transaction_cancelled,
  update_transaction_settled, update_transaction_row, get_transaction_with_entries, query_entries,
  has_id,
}
use double_entry_ledger_engi.Processor.Reverse.{reverse_transaction_uuid}
use double_entry_ledger_engi.Processor.Batch.{post_batch}
use double_entry_ledger_engi.Processor.Atomic.{cancel-IsAtomic, settle-IsAtomic}
use double_entry_ledger_engi.Tests.Setup.{
  test_env, test_validator, world_of, one_db, pay_request, reversal_req, key_row, test_row,
  test_entry,
}
use double_entry_ledger_engi.Processor.Retried.{ledger, post_transaction-IsAtomic, reverse-IsAtomic}
use double_entry_ledger_engi.Base.{
  Option, ◌≢◌, ℕ, ◌≡◌, err, ok, find, none, ◌∷◌, [], arith, refl, some, ◌⊎◌,
}
use double_entry_ledger_engi.Balance.{
  current_balance, get_snapshot, compute_settled_balance, compute_pending_amounts, balance_of,
  get_current_balance, latest_snapshot,
}
use double_entry_ledger_engi.Idempotency.{record_success, insert_key_row, compare_existing, has_key}
use double_entry_ledger_engi.Processor.Post.{post_transaction}
use double_entry_ledger_engi.Store.Frame.{IsAtomic}
use double_entry_ledger_engi.Store.{Error, World, Db, run, KeyRow, TransactionRow, select_snapshot}
use double_entry_ledger_engi.Processor.Settle.{
  settle_pending_transaction_uuid, settle_in_tx, require_pending,
}
use double_entry_ledger_engi.Processor.Cancel.{cancel_pending_transaction_uuid, cancel_in_tx}
use double_entry_ledger_engi.Domain.{
  Balance, TransactionState, settled, pending, Transaction, credit, debit, cancelled,
}
use std.Int.{pos, ◌+ℤ◌}
use double_entry_ledger_engi.Tests.Amounts.{amount_decimal, Amount, amount_laws}

abbrev pending_world : World Amount
pending_world = world_of (one_db pending)

abbrev settled_world : World Amount
settled_world = world_of (one_db settled)

post_transaction-IsAtomic_example :
    IsAtomic ledger (post_transaction test_env test_validator 500 pay_request)
post_transaction-IsAtomic_example =
    post_transaction-IsAtomic test_env test_validator 500 pay_request

post_batch-IsAtomic_example :
    IsAtomic ledger (post_batch test_env test_validator 500 (pay_request ∷ []))
post_batch-IsAtomic_example = post_batch-IsAtomic test_env test_validator 500 (pay_request ∷ [])

reverse-IsAtomic_example :
    IsAtomic {D = Amount} ledger
      (reverse_transaction_uuid test_env test_validator 500 7 reversal_req)
reverse-IsAtomic_example = reverse-IsAtomic test_env test_validator 500 7 reversal_req

settle-IsAtomic_example :
    IsAtomic (λ (db : Db Amount). db) (settle_pending_transaction_uuid test_env 7)
settle-IsAtomic_example = settle-IsAtomic (λ db. db) test_env 7

cancel-IsAtomic_example :
    IsAtomic (λ (db : Db Amount). db) (cancel_pending_transaction_uuid test_env 7)
cancel-IsAtomic_example = cancel-IsAtomic (λ db. db) test_env 7

-- The answer of settling or cancelling.
abbrev answered : TransactionState → Option ℕ → Transaction Amount
answered state settled_at = record {
  transaction_id = "t7";
  idempotency_key = none;
  state = state;
  posted_at = 3;
  settled_at = settled_at;
  reversed_by_transaction_id = none;
  reverses_transaction_id = none;
  entries =
      scan_entry test_env (test_entry 8 1 credit) ∷ scan_entry test_env (test_entry 9 2 debit) ∷ [];
  metadata = none;
}

settle-as_settled_example :
    (row : TransactionRow) × (find (has_id 7) pending_world.db.transactions ≡ some row)
    × (row.state ≡ pending)
    × ((settle_pending_transaction_uuid test_env 7 pending_world).1.db ≡ record pending_world.db {
      transactions = with_changed (as_settled 12) 7 pending_world.db.transactions;
    })
unfolding settle_pending_transaction_uuid settle_in_tx require_pending run
    get_transaction_header_for_update query_header update_transaction_settled update_transaction_row
    get_transaction_with_entries query_entries
settle-as_settled_example =
    settle-as_settled test_env 7 pending_world (answered settled (some 12)) refl

cancel-as_cancelled_example :
    (row : TransactionRow) × (find (has_id 7) pending_world.db.transactions ≡ some row)
    × (row.state ≡ pending)
    × ((cancel_pending_transaction_uuid test_env 7 pending_world).1.db ≡ record pending_world.db {
      transactions = with_changed as_cancelled 7 pending_world.db.transactions;
    })
unfolding cancel_pending_transaction_uuid cancel_in_tx require_pending run
    get_transaction_header_for_update query_header update_transaction_cancelled
    update_transaction_row get_transaction_with_entries query_entries
cancel-as_cancelled_example =
    cancel-as_cancelled test_env 7 pending_world (answered cancelled none) refl

settled≢pending : settled ≢ pending
settled≢pending h = absurd cc

not_pending-final_example :
    ((e : Error Amount) × ((settle_pending_transaction_uuid test_env 7 settled_world).0 ≡ err e))
    × ((settle_pending_transaction_uuid test_env 7 settled_world).1.db ≡ settled_world.db)
    × ((e : Error Amount) × ((cancel_pending_transaction_uuid test_env 7 settled_world).0 ≡ err e))
    × ((cancel_pending_transaction_uuid test_env 7 settled_world).1.db ≡ settled_world.db)
not_pending-final_example =
    not_pending-final test_env 7 settled_world (test_row settled) refl settled≢pending

abbrev cash_balance : Balance Amount
cash_balance = record {
  account_id = "cash";
  currency = "USD";
  settled_balance = pos 100;
  pending_debits = pos 0;
  pending_credits = pos 0;
  available_balance = pos 100;
  entry_count = 1;
  as_of_timestamp = 13;
}

get_current_balance-live_balance_example :
    (pos 100 ≡ live_balance amount_laws settled_world.db 1 "USD")
    × (pos 100 ≡ settled_balance_of amount_laws settled_world.db 1 "USD")
    × ((latest_snapshot settled_world.db 1 "USD" ≡ none)
        ⊎ (test_env.fault settled_world.tick select_snapshot ≢ none))
unfolding get_current_balance current_balance run get_snapshot compute_settled_balance
    compute_pending_amounts balance_of ◌+ℤ◌
get_current_balance-live_balance_example =
    get_current_balance-live_balance amount_laws test_env 1 "USD" settled_world cash_balance refl

post_transaction-replay_example :
    ((post_transaction test_env test_validator 500 pay_request settled_world).1.db
      ≡ settled_world.db)
    × ((post_transaction test_env test_validator 500 pay_request settled_world).0
        ≡ ok (shown test_env settled_world.db (test_row settled) 7))
post_transaction-replay_example =
    post_transaction-replay test_env test_validator 500 pay_request "k1" settled_world key_row
      (test_row settled) (λ n c. refl) refl refl (ground arith) refl

record_success-find_example :
    (row : KeyRow) × (find
        (has_key "k2")
        (record_success test_env "k2" 7 500 settled_world).1.db.idempotency_keys
      ≡ some row)
    × (row.transaction_id ≡ 7)
unfolding record_success insert_key_row compare_existing run
record_success-find_example = record_success-find test_env "k2" 7 500 settled_world refl

record_success-taken_example :
    ((record_success test_env "k1" 9 500 settled_world).1.db ≡ settled_world.db)
    × ((record_success test_env "k1" 9 500 settled_world).0 ≡ ok tt → key_row.transaction_id ≡ 9)
record_success-taken_example = record_success-taken test_env "k1" 9 500 settled_world key_row refl

-- A request under a key that is not in the table.
abbrev keyed_reversal : ReversalRequest
keyed_reversal = record reversal_req { idempotency_key = some "k9" }

abbrev reversed_row : TransactionRow
reversed_row = record (test_row settled) { reversed_by = some 99 }

abbrev reversed_world : World Amount
reversed_world = world_of (record (one_db settled) { transactions = reversed_row ∷ [] })

reversed_once : ¬ (IsReversible reversed_row)
reversed_once h = absurd (cc (h.1))

not_reversible-final_example :
    ((e : Error Amount) × ((reverse_transaction_uuid test_env test_validator 500 7 keyed_reversal
          reversed_world).0
        ≡ err e))
    × (ledger
          (reverse_transaction_uuid test_env test_validator 500 7 keyed_reversal
            reversed_world).1.db
        ≡ ledger reversed_world.db)
not_reversible-final_example =
    not_reversible-final amount_laws test_env test_validator 500 7 keyed_reversal reversed_world
      reversed_row refl reversed_once tt

pending-completes_example :
    ((settle_pending_transaction_uuid test_env 7 pending_world).0
      ≡ ok (shown test_env pending_world.db (as_settled 12 (test_row pending)) 7))
    × ((settle_pending_transaction_uuid test_env 7 pending_world).1.db ≡ record pending_world.db {
      transactions = with_changed (as_settled 12) 7 pending_world.db.transactions;
    })
    × ((cancel_pending_transaction_uuid test_env 7 pending_world).0
        ≡ ok (shown test_env pending_world.db (as_cancelled (test_row pending)) 7))
    × ((cancel_pending_transaction_uuid test_env 7 pending_world).1.db ≡ record pending_world.db {
      transactions = with_changed as_cancelled 7 pending_world.db.transactions;
    })
pending-completes_example =
    pending-completes test_env 7 pending_world (test_row pending) (λ n c. refl) refl refl
