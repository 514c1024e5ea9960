-- ===== src/Processor/Atomic.antt =====
-- Failure of an operation of internal/service/transaction leaves the committed tables as they were.
use double_entry_ledger_engi.Base.{ℕ, Option, true, String, some, ◌>>◌, pure, arith, none, refl}
use double_entry_ledger_engi.Decimal.{Decimal}
use double_entry_ledger_engi.Domain.{TransactionState, pending}
use double_entry_ledger_engi.Store.{run, Uuid, Env, Db}
use double_entry_ledger_engi.Store.Frame.{
  NeverFails, now-KeepsDb, new_uuid-KeepsDb, KeepsDb, IsAtomic, keeps_db, bind-IsAtomic,
  begin-KeepsDb, wrap-KeepsDb, commit_then-IsAtomic, pure-NeverFails,
}
use double_entry_ledger_engi.Ledger.Frames.{
  insert_entries-KeepsDb, insert_transaction_row-KeepsDb, get_transaction_header_for_update-KeepsDb,
  get_transaction_with_entries-KeepsDb, update_transaction_settled-KeepsDb,
  update_transaction_cancelled-KeepsDb,
}
use double_entry_ledger_engi.Processor.{PostTransactionRequest}
use double_entry_ledger_engi.Processor.Validate.{validate_accounts_and_balances_with_locking}
use double_entry_ledger_engi.Processor.Frames.{validate_accounts_for_post-KeepsDb}
use double_entry_ledger_engi.Processor.Write.{record_key}
use double_entry_ledger_engi.Processor.Execute.{write_post, execute_post_transaction}
use double_entry_ledger_engi.Processor.Settle.{
  require_pending, settle_in_tx, settle_pending_transaction_uuid,
}
use double_entry_ledger_engi.Processor.Cancel.{cancel_in_tx, cancel_pending_transaction_uuid}

module _ {D X : Type 0} ⦃dec : Decimal D⦄ (view : Db D → X) (env : Env) where
  require_pending-KeepsDb : (id : Uuid) (s : TransactionState) → KeepsDb view (require_pending id s)
  unfolding require_pending
  require_pending-KeepsDb id pending = search keeps_db
  require_pending-KeepsDb id _ = search keeps_db

  settle_in_tx-KeepsDb : (id : Uuid) → KeepsDb view (settle_in_tx env id)
  unfolding settle_in_tx
  settle_in_tx-KeepsDb id =
      search
        (
          keeps_db, require_pending-KeepsDb, get_transaction_header_for_update-KeepsDb,
          update_transaction_settled-KeepsDb, get_transaction_with_entries-KeepsDb,
        )
        depth 16

  cancel_in_tx-KeepsDb : (id : Uuid) → KeepsDb view (cancel_in_tx env id)
  unfolding cancel_in_tx
  cancel_in_tx-KeepsDb id =
      search
        (
          keeps_db, require_pending-KeepsDb, get_transaction_header_for_update-KeepsDb,
          update_transaction_cancelled-KeepsDb, get_transaction_with_entries-KeepsDb,
        )
        depth 16

  -- Settling returns an error only with the committed tables as they were.
  pub settle-IsAtomic : (id : Uuid) → IsAtomic view (settle_pending_transaction_uuid env id)
  unfolding settle_pending_transaction_uuid
  settle-IsAtomic id = bind-IsAtomic view _ _ (wrap-KeepsDb view _ _ (begin-KeepsDb view env)) λ _.
      bind-IsAtomic view _ _ (settle_in_tx-KeepsDb id)
        λ updated. commit_then-IsAtomic view env _ _ (pure-NeverFails updated)

  -- Cancelling returns an error only with the committed tables as they were.
  pub cancel-IsAtomic : (id : Uuid) → IsAtomic view (cancel_pending_transaction_uuid env id)
  unfolding cancel_pending_transaction_uuid
  cancel-IsAtomic id = bind-IsAtomic view _ _ (wrap-KeepsDb view _ _ (begin-KeepsDb view env)) λ _.
      bind-IsAtomic view _ _ (cancel_in_tx-KeepsDb id)
        λ updated. commit_then-IsAtomic view env _ _ (pure-NeverFails updated)

  module _ (ttl : ℕ) where
    write_post-KeepsDb :
        (req : PostTransactionRequest D) (id : Uuid) (posted_at : ℕ)
        → KeepsDb view (write_post env ttl req id posted_at)
    unfolding write_post
    write_post-KeepsDb req id posted_at =
        search (keeps_db, insert_transaction_row-KeepsDb, insert_entries-KeepsDb) depth 12

    pub record_key-NeverFails :
        (key : Option String) (id : Uuid) → NeverFails {D = D} (record_key env ttl key id)
    unfolding record_key run
    record_key-NeverFails none id = record { succeeds = λ w. (tt, refl) }
    record_key-NeverFails (some key) id = record { succeeds = λ w. (tt, refl) }

    pub recorded-NeverFails :
        {A : Type 0} (key : Option String) (id : Uuid) (a : A)
        → NeverFails {D = D} (record_key env ttl key id >> pure a)
    unfolding run
    recorded-NeverFails key id a = record {
      succeeds = λ w. (a, ground (arith, (record_key-NeverFails key id).succeeds w));
    }

    pub execute-IsAtomic :
        (req : PostTransactionRequest D) → IsAtomic view (execute_post_transaction env ttl req)
    unfolding execute_post_transaction validate_accounts_and_balances_with_locking
    execute-IsAtomic req =
        bind-IsAtomic view _ _ (wrap-KeepsDb view _ _ (begin-KeepsDb view env)) λ _.
          bind-IsAtomic view _ _ (validate_accounts_for_post-KeepsDb env view true req.entries) λ _.
            bind-IsAtomic view _ _ (new_uuid-KeepsDb view env) λ id.
              bind-IsAtomic view _ _ (now-KeepsDb view env) λ posted_at.
                bind-IsAtomic view _ _ (write_post-KeepsDb req id posted_at)
                  λ result. commit_then-IsAtomic view env _ _ (recorded-NeverFails _ id result)
