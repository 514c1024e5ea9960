-- ===== src/Processor/Execute.antt =====
-- executePostTransaction of internal/service/transaction/processor_execute.go
use double_entry_ledger_engi.Base.{ℕ, none, ◌>>=◌, ◌>>◌, pure}
use double_entry_ledger_engi.Decimal.{Decimal}
use double_entry_ledger_engi.Domain.{Transaction}
use double_entry_ledger_engi.Store.{Uuid, Env, M, begin, commit, emit, now, new_uuid, wrap, posted}
use double_entry_ledger_engi.Ledger.{insert_transaction_row, insert_entries}
use double_entry_ledger_engi.Processor.{
  PostTransactionRequest, used_key, settled_time, posted_transaction,
  entry_requests_to_ledger_inputs,
}
use double_entry_ledger_engi.Processor.Validate.{validate_accounts_and_balances_with_locking}
use double_entry_ledger_engi.Processor.Write.{record_key}

module _ {D : Type 0} ⦃dec : Decimal D⦄ (env : Env) (ttl : ℕ) where
  -- The statements between the begin and the commit.
  unfoldable pub write_post : PostTransactionRequest D → Uuid → ℕ → M D (Transaction D)
  write_post req id posted_at = do
    wrap "failed to insert transaction" (
        insert_transaction_row env id req.idempotency_key req.state posted_at
          (settled_time req.state posted_at) req.metadata)
    entries ←
        wrap "failed to insert entries"
          (insert_entries env id (entry_requests_to_ledger_inputs req.entries) posted_at)
    wrap "failed to emit transaction posted event"
        (emit env (posted (posted_transaction env req id posted_at none entries)))
    pure (posted_transaction env req id posted_at none entries)

  unfoldable pub execute_post_transaction : PostTransactionRequest D → M D (Transaction D)
  unfolding write_post
  execute_post_transaction req = do
    wrap "failed to begin transaction" (begin env)
    validate_accounts_and_balances_with_locking env req.entries
    id ← new_uuid env
    posted_at ← now env
    result ← write_post req id posted_at
    wrap "failed to commit transaction" (commit env)
    record_key env ttl (used_key req.idempotency_key) id
    pure result
