-- ===== src/Processor/Post.antt =====
-- PostTransaction of internal/service/transaction/processor_post.go, without its logs, spans and
-- counters.
use double_entry_ledger_engi.Base.{ℕ, Option, none, some, ◌>>=◌, ◌>>◌}
use double_entry_ledger_engi.Decimal.{Decimal}
use double_entry_ledger_engi.Domain.{Transaction}
use double_entry_ledger_engi.Domain.Validator.{TransactionValidator, validate_transaction}
use double_entry_ledger_engi.Store.{Uuid, Env, M, pool}
use double_entry_ledger_engi.Ledger.{get_transaction_with_entries}
use double_entry_ledger_engi.Concurrency.{default_retry_config, execute_with_retry}
use double_entry_ledger_engi.Processor.{PostTransactionRequest, used_key, request_to_transaction}
use double_entry_ledger_engi.Processor.Write.{check, check_key}
use double_entry_ledger_engi.Processor.Execute.{execute_post_transaction}

module _ {D : Type 0} ⦃dec : Decimal D⦄ (env : Env) (v : TransactionValidator) (ttl : ℕ) where
  unfoldable pub get_transaction_by_id : Uuid → M D (Transaction D)
  get_transaction_by_id = get_transaction_with_entries env pool

  unfoldable pub post_new : PostTransactionRequest D → M D (Transaction D)
  post_new req = do
    check "validation failed" (validate_transaction v (request_to_transaction req))
    execute_with_retry env default_retry_config (execute_post_transaction env ttl req)

  unfoldable pub answer : PostTransactionRequest D → Option Uuid → M D (Transaction D)
  unfolding get_transaction_by_id post_new
  answer req none = post_new req
  answer req (some id) = get_transaction_by_id id

  unfoldable pub post_transaction : PostTransactionRequest D → M D (Transaction D)
  unfolding answer
  post_transaction req = do
    existing ← check_key env ttl (used_key req.idempotency_key)
    answer req existing
