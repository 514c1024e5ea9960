-- ===== src/Processor/Batch.antt =====
-- PostBatch of internal/service/transaction/processor_batch.go
use double_entry_ledger_engi.Base.{
  ℕ, suc, ⊤, ◌+◌, String, Option, none, some, List, [], ◌∷◌, ◌>>=◌, ◌>>◌, pure, raise, ltb,
  is_empty, length, if◌then◌else◌,
}
use double_entry_ledger_engi.Decimal.{Decimal}
use double_entry_ledger_engi.Domain.{Transaction}
use double_entry_ledger_engi.Domain.Errors.{empty_batch, batch_too_large, key_exists}
use double_entry_ledger_engi.Domain.Validator.{TransactionValidator, validate_transaction}
use double_entry_ledger_engi.Store.{
  Uuid, Env, M, validation, begin, commit, emit, now, new_uuid, wrap, posted,
}
use double_entry_ledger_engi.Ledger.{insert_transaction_row, insert_entries}
use double_entry_ledger_engi.Processor.{
  PostTransactionRequest, used_key, settled_time, posted_transaction, request_to_transaction,
  entry_requests_to_ledger_inputs,
}
use double_entry_ledger_engi.Processor.Validate.{validate_accounts_and_balances}
use double_entry_ledger_engi.Processor.Write.{check, check_key, record_key}

abbrev pub key_text : Option String → String
key_text none = ""
key_text (some key) = key

module _ {D : Type 0} ⦃dec : Decimal D⦄ (env : Env) (v : TransactionValidator) (ttl : ℕ) where
  unfoldable pub refuse_existing : ℕ → PostTransactionRequest D → Option Uuid → M D ⊤
  refuse_existing i req none = pure tt
  refuse_existing i req (some id) =
      raise (validation (key_exists i (key_text req.idempotency_key) id))

  -- The first loop: keys and the pure validation, before the transaction is opened.
  unfoldable pub check_requests : ℕ → List (PostTransactionRequest D) → M D ⊤
  unfolding refuse_existing
  check_requests i [] = pure tt
  check_requests i (req ∷ reqs) = do
    existing ← check_key env ttl (used_key req.idempotency_key)
    refuse_existing i req existing
    check "validation failed for transaction" (validate_transaction v (request_to_transaction req))
    check_requests (suc i) reqs

  -- Each request is checked against the tables as they were before the batch.
  unfoldable pub check_all_accounts : List (PostTransactionRequest D) → M D ⊤
  check_all_accounts [] = pure tt
  check_all_accounts (req ∷ reqs) = do
    wrap "validation failed for transaction" (validate_accounts_and_balances env req.entries)
    check_all_accounts reqs

  unfoldable pub new_ids : List (PostTransactionRequest D) → M D (List Uuid)
  new_ids [] = pure []
  new_ids (req ∷ reqs) = do id ← new_uuid env; ids ← new_ids reqs; pure (id ∷ ids)

  -- One request of the batch; the times of the batch are a microsecond apart.
  unfoldable pub write_request : PostTransactionRequest D → Uuid → ℕ → M D (Transaction D)
  write_request req id posted_at = do
    wrap "failed to insert transaction" (
        insert_transaction_row env id req.idempotency_key req.state posted_at
          (settled_time req.state posted_at) req.metadata)
    entries ←
        wrap "failed to insert entries for transaction"
          (insert_entries env id (entry_requests_to_ledger_inputs req.entries) posted_at)
    pure (posted_transaction env req id posted_at none entries)

  unfoldable pub write_requests :
      List (PostTransactionRequest D) → List Uuid → ℕ → M D (List (Transaction D))
  unfolding write_request
  write_requests (req ∷ reqs) (id ∷ ids) posted_at = do
    result ← write_request req id posted_at
    results ← write_requests reqs ids (posted_at + 1)
    pure (result ∷ results)
  write_requests _ _ posted_at = pure []

  unfoldable pub emit_all : List (Transaction D) → M D ⊤
  emit_all [] = pure tt
  emit_all (result ∷ results) = do
    wrap "failed to emit event for transaction" (emit env (posted result))
    emit_all results

  unfoldable pub record_keys : List (PostTransactionRequest D) → List Uuid → M D ⊤
  record_keys (req ∷ reqs) (id ∷ ids) = do
    record_key env ttl (used_key req.idempotency_key) id
    record_keys reqs ids
  record_keys _ _ = pure tt

  -- Everything between the begin and the commit.
  unfoldable pub batch_in_tx :
      List (PostTransactionRequest D) → M D (List Uuid × List (Transaction D))
  unfolding check_all_accounts new_ids write_requests emit_all
  batch_in_tx reqs = do
    check_all_accounts reqs
    base_time ← now env
    ids ← new_ids reqs
    results ← write_requests reqs ids base_time
    emit_all results
    pure (ids, results)

  unfoldable pub post_checked : List (PostTransactionRequest D) → M D (List (Transaction D))
  unfolding batch_in_tx check_requests record_keys
  post_checked reqs = do
    check_requests 0 reqs
    wrap "failed to begin batch transaction" (begin env)
    done ← batch_in_tx reqs
    wrap "failed to commit batch transaction" (commit env)
    record_keys reqs done.0
    pure done.1

  unfoldable pub post_batch : List (PostTransactionRequest D) → M D (List (Transaction D))
  unfolding post_checked
  post_batch reqs =
      if is_empty reqs
      then raise (validation empty_batch)
      else if ltb 1000 (length reqs)
      then raise (validation (batch_too_large (length reqs)))
      else post_checked reqs
