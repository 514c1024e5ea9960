-- ===== src/Processor/Reverse.antt =====
-- ReverseTransaction of internal/service/transaction/processor_reverse.go
use double_entry_ledger_engi.Base.{ℕ, String, Option, none, some, ◌>>=◌, ◌>>◌, pure, lift, map_err}
use double_entry_ledger_engi.Decimal.{Decimal}
use double_entry_ledger_engi.Domain.{Transaction}
use double_entry_ledger_engi.Domain.Errors.{original_not_found}
use double_entry_ledger_engi.Domain.Validator.{TransactionValidator, validate_transaction}
use double_entry_ledger_engi.Store.{
  Uuid, Env, M, pool, begin, commit, emit, now, new_uuid, wrap, reversed,
}
use double_entry_ledger_engi.Ledger.{
  get_transaction_with_entries_for_update, get_transaction_with_entries, insert_reversal_row,
  insert_entries, mark_original_transaction_reversed,
}
use double_entry_ledger_engi.Processor.{
  PostTransactionRequest, ReversalRequest, used_key, settled_time, posted_transaction,
  request_to_transaction, entry_requests_to_ledger_inputs, parse_uuid_field,
  validate_reversal_eligibility, create_reversal_entries,
}
use double_entry_ledger_engi.Processor.Validate.{validate_accounts_and_balances}
use double_entry_ledger_engi.Processor.Write.{check, check_key, record_key, not_found}

abbrev pub reversal_request :
    {D : Type 0} → Transaction D → ReversalRequest → PostTransactionRequest D
reversal_request original req = record {
  idempotency_key = req.idempotency_key;
  state = req.state;
  entries = create_reversal_entries original.entries req.description;
  metadata = req.metadata;
}

module _ {D : Type 0} ⦃dec : Decimal D⦄ (env : Env) (v : TransactionValidator) (ttl : ℕ) where
  -- The original, locked and checked, and the request that negates it.
  unfoldable pub load_reversal : Uuid → ReversalRequest → M D (PostTransactionRequest D)
  load_reversal original req = do
    txn ←
        map_err (not_found (original_not_found original) "failed to query original transaction")
          (get_transaction_with_entries_for_update env original)
    lift (validate_reversal_eligibility txn)
    check "reversal validation failed"
        (validate_transaction v (request_to_transaction (reversal_request txn req)))
    validate_accounts_and_balances env (create_reversal_entries txn.entries req.description)
    pure (reversal_request txn req)

  unfoldable pub write_reversal : Uuid → PostTransactionRequest D → Uuid → ℕ → M D (Transaction D)
  write_reversal original req id posted_at = do
    wrap "failed to insert reversal transaction" (
        insert_reversal_row env id original req.idempotency_key req.state posted_at
          (settled_time req.state posted_at) req.metadata)
    entries ←
        wrap "failed to insert reversal entries"
          (insert_entries env id (entry_requests_to_ledger_inputs req.entries) posted_at)
    wrap "failed to mark original transaction as reversed"
        (mark_original_transaction_reversed env original id)
    wrap "failed to emit transaction reversed event"
        (emit env (reversed (posted_transaction env req id posted_at (some original) entries)))
    pure (posted_transaction env req id posted_at (some original) entries)

  unfoldable pub reverse_new : Uuid → ReversalRequest → M D (Transaction D)
  unfolding load_reversal write_reversal
  reverse_new original req = do
    wrap "failed to begin transaction" (begin env)
    reversal ← load_reversal original req
    id ← new_uuid env
    posted_at ← now env
    result ← write_reversal original reversal id posted_at
    wrap "failed to commit reversal transaction" (commit env)
    record_key env ttl (used_key req.idempotency_key) id
    pure result

  unfoldable pub answer_reversal : Uuid → ReversalRequest → Option Uuid → M D (Transaction D)
  unfolding reverse_new
  answer_reversal original req none = reverse_new original req
  answer_reversal original req (some id) = get_transaction_with_entries env pool id

  unfoldable pub reverse_transaction_uuid : Uuid → ReversalRequest → M D (Transaction D)
  unfolding answer_reversal
  reverse_transaction_uuid original req = do
    existing ← check_key env ttl (used_key req.idempotency_key)
    answer_reversal original req existing

  unfoldable pub reverse_transaction : String → ReversalRequest → M D (Transaction D)
  unfolding reverse_transaction_uuid
  reverse_transaction original_transaction_id req = do
    original ← lift (parse_uuid_field env "original_transaction_id" original_transaction_id)
    reverse_transaction_uuid original req
