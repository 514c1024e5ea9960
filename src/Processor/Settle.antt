-- ===== src/Processor/Settle.antt =====
-- SettlePendingTransaction of internal/service/transaction/processor_settle.go
use double_entry_ledger_engi.Base.{⊤, String, ◌>>=◌, ◌>>◌, pure, raise, lift, map_err}
use double_entry_ledger_engi.Decimal.{Decimal}
use double_entry_ledger_engi.Domain.{Transaction, TransactionState, pending}
use double_entry_ledger_engi.Domain.Errors.{transaction_not_found, not_pending}
use double_entry_ledger_engi.Store.{
  Uuid, Env, M, in_tx, validation, begin, commit, emit, now, wrap, settled_event,
}
use double_entry_ledger_engi.Ledger.{
  get_transaction_header_for_update, get_transaction_with_entries, update_transaction_settled,
}
use double_entry_ledger_engi.Processor.{parse_uuid_field}
use double_entry_ledger_engi.Processor.Write.{not_found}

module _ {D : Type 0} where
  -- Settling and cancelling want a pending transaction.
  unfoldable pub require_pending : Uuid → TransactionState → M D ⊤
  require_pending id pending = pure tt
  require_pending id state = raise (validation (not_pending id state))

module _ {D : Type 0} ⦃dec : Decimal D⦄ (env : Env) where
  unfoldable pub settle_in_tx : Uuid → M D (Transaction D)
  settle_in_tx id = do
    txn ←
        map_err (not_found (transaction_not_found id) "failed to query transaction")
          (get_transaction_header_for_update env id)
    require_pending id txn.state
    settled_at ← now env
    wrap "failed to update transaction state" (update_transaction_settled env id settled_at)
    updated ← wrap "failed to get updated transaction" (get_transaction_with_entries env in_tx id)
    wrap "failed to emit transaction settled event" (emit env (settled_event updated))
    pure updated

  unfoldable pub settle_pending_transaction_uuid : Uuid → M D (Transaction D)
  unfolding settle_in_tx
  settle_pending_transaction_uuid id = do
    wrap "failed to begin transaction" (begin env)
    updated ← settle_in_tx id
    wrap "failed to commit transaction" (commit env)
    pure updated

  unfoldable pub settle_pending_transaction : String → M D (Transaction D)
  unfolding settle_pending_transaction_uuid
  settle_pending_transaction transaction_id = do
    id ← lift (parse_uuid_field env "transaction_id" transaction_id)
    settle_pending_transaction_uuid id
