-- ===== src/Processor/Cancel.antt =====
-- CancelPendingTransaction of internal/service/transaction/processor_cancel.go
use double_entry_ledger_engi.Base.{String, ◌>>=◌, ◌>>◌, pure, lift, map_err}
use double_entry_ledger_engi.Decimal.{Decimal}
use double_entry_ledger_engi.Domain.{Transaction}
use double_entry_ledger_engi.Domain.Errors.{transaction_not_found}
use double_entry_ledger_engi.Store.{Uuid, Env, M, in_tx, begin, commit, emit, wrap, cancelled_event}
use double_entry_ledger_engi.Ledger.{
  get_transaction_header_for_update, get_transaction_with_entries, update_transaction_cancelled,
}
use double_entry_ledger_engi.Processor.{parse_uuid_field}
use double_entry_ledger_engi.Processor.Write.{not_found}
use double_entry_ledger_engi.Processor.Settle.{require_pending}

module _ {D : Type 0} ⦃dec : Decimal D⦄ (env : Env) where
  unfoldable pub cancel_in_tx : Uuid → M D (Transaction D)
  cancel_in_tx id = do
    txn ←
        map_err (not_found (transaction_not_found id) "failed to query transaction")
          (get_transaction_header_for_update env id)
    require_pending id txn.state
    wrap "failed to update transaction state" (update_transaction_cancelled env id)
    updated ← wrap "failed to get updated transaction" (get_transaction_with_entries env in_tx id)
    wrap "failed to emit transaction cancelled event" (emit env (cancelled_event updated))
    pure updated

  unfoldable pub cancel_pending_transaction_uuid : Uuid → M D (Transaction D)
  unfolding cancel_in_tx
  cancel_pending_transaction_uuid id = do
    wrap "failed to begin transaction" (begin env)
    updated ← cancel_in_tx id
    wrap "failed to commit transaction" (commit env)
    pure updated

  unfoldable pub cancel_pending_transaction : String → M D (Transaction D)
  unfolding cancel_pending_transaction_uuid
  cancel_pending_transaction transaction_id = do
    id ← lift (parse_uuid_field env "transaction_id" transaction_id)
    cancel_pending_transaction_uuid id
