-- ===== src/Processor/Batched.antt =====
-- PostBatch writes all of its transactions or none.
use double_entry_ledger_engi.Domain.{Transaction}
use double_entry_ledger_engi.Processor.Validate.{validate_accounts_and_balances}
use double_entry_ledger_engi.Processor.{PostTransactionRequest}
use double_entry_ledger_engi.Processor.Batch.{
  batch_in_tx, check_all_accounts, check_requests, emit_all, new_ids, post_batch, post_checked,
  record_keys, refuse_existing, write_request, write_requests,
}
use double_entry_ledger_engi.Base.{ℕ, List, Option, ◌∷◌, [], false, some, suc, ◌+◌, none}
use double_entry_ledger_engi.Domain.Validator.{TransactionValidator}
use double_entry_ledger_engi.Store.{Env, Uuid}
use double_entry_ledger_engi.Decimal.{Decimal}
use double_entry_ledger_engi.Store.Frame.{
  KeepsDb, IsAtomic, NeverFails, keeps_db, bind-KeepsDb, bind-IsAtomic, begin-KeepsDb, wrap-KeepsDb,
  commit_then-IsAtomic, pure-NeverFails, KeepsDb-IsAtomic, new_uuid-KeepsDb, raise-KeepsDb,
  pure-KeepsDb, bind-NeverFails, if-IsAtomic, emit-KeepsDb,
}
use double_entry_ledger_engi.Ledger.Frames.{insert_entries-KeepsDb, insert_transaction_row-KeepsDb}
use double_entry_ledger_engi.Processor.Frames.{validate_accounts_for_post-KeepsDb}
use double_entry_ledger_engi.Processor.Retried.{ledger, check_key-KeepsDb, check-KeepsDb}
use double_entry_ledger_engi.Processor.Atomic.{record_key-NeverFails}

module _ {D : Type 0} ⦃dec : Decimal D⦄ (env : Env) (v : TransactionValidator) (ttl : ℕ) where
  refuse_existing-KeepsDb :
      (i : ℕ) (req : PostTransactionRequest D) (o : Option Uuid)
      → KeepsDb {D = D} ledger (refuse_existing env v ttl i req o)
  unfolding refuse_existing
  refuse_existing-KeepsDb i req none = search keeps_db
  refuse_existing-KeepsDb i req (some id) = search keeps_db

  pub check_requests-KeepsDb :
      (i : ℕ) (reqs : List (PostTransactionRequest D))
      → KeepsDb ledger (check_requests env v ttl i reqs)
  unfolding check_requests
  check_requests-KeepsDb i [] = search keeps_db
  check_requests-KeepsDb i (req ∷ reqs) = bind-KeepsDb ledger _ _ (check_key-KeepsDb env ttl _) λ o.
      bind-KeepsDb ledger _ _ (refuse_existing-KeepsDb i req o) λ _.
        bind-KeepsDb ledger _ _ (check-KeepsDb env ttl _ _) λ _. check_requests-KeepsDb (suc i) reqs

  check_all_accounts-KeepsDb :
      (reqs : List (PostTransactionRequest D)) → KeepsDb ledger (check_all_accounts env v ttl reqs)
  unfolding check_all_accounts validate_accounts_and_balances
  check_all_accounts-KeepsDb [] = search keeps_db
  check_all_accounts-KeepsDb (req ∷ reqs) =
      bind-KeepsDb ledger _ _
        (wrap-KeepsDb ledger _ _ (validate_accounts_for_post-KeepsDb env ledger false req.entries))
        λ _. check_all_accounts-KeepsDb reqs

  new_ids-KeepsDb :
      (reqs : List (PostTransactionRequest D)) → KeepsDb {D = D} ledger (new_ids env v ttl reqs)
  unfolding new_ids
  new_ids-KeepsDb [] = search keeps_db
  new_ids-KeepsDb (req ∷ reqs) =
      bind-KeepsDb ledger _ _ (new_uuid-KeepsDb ledger env)
        λ _. bind-KeepsDb ledger _ _ (new_ids-KeepsDb reqs) λ _. pure-KeepsDb ledger _

  write_request-KeepsDb :
      (req : PostTransactionRequest D) (id : Uuid) (posted_at : ℕ)
      → KeepsDb ledger (write_request env v ttl req id posted_at)
  unfolding write_request
  write_request-KeepsDb req id posted_at =
      search (keeps_db, insert_transaction_row-KeepsDb, insert_entries-KeepsDb) depth 12

  write_requests-KeepsDb :
      (reqs : List (PostTransactionRequest D)) (ids : List Uuid) (posted_at : ℕ)
      → KeepsDb ledger (write_requests env v ttl reqs ids posted_at)
  unfolding write_requests
  write_requests-KeepsDb (req ∷ reqs) (id ∷ ids) posted_at =
      bind-KeepsDb ledger _ _ (write_request-KeepsDb req id posted_at) λ _.
        bind-KeepsDb ledger _ _ (write_requests-KeepsDb reqs ids (posted_at + 1))
          λ _. pure-KeepsDb ledger _
  write_requests-KeepsDb _ _ posted_at = search keeps_db

  emit_all-KeepsDb : (results : List (Transaction D)) → KeepsDb ledger (emit_all env v ttl results)
  unfolding emit_all
  emit_all-KeepsDb [] = search keeps_db
  emit_all-KeepsDb (result ∷ results) =
      bind-KeepsDb ledger _ _ (wrap-KeepsDb ledger _ _ (emit-KeepsDb ledger env _))
        λ _. emit_all-KeepsDb results

  batch_in_tx-KeepsDb :
      (reqs : List (PostTransactionRequest D)) → KeepsDb ledger (batch_in_tx env v ttl reqs)
  unfolding batch_in_tx
  batch_in_tx-KeepsDb reqs =
      search
        (
          keeps_db, check_all_accounts-KeepsDb, new_ids-KeepsDb, write_requests-KeepsDb,
          emit_all-KeepsDb,
        )
        depth 16

  record_keys-NeverFails :
      (reqs : List (PostTransactionRequest D)) (ids : List Uuid)
      → NeverFails {D = D} (record_keys env v ttl reqs ids)
  unfolding record_keys
  record_keys-NeverFails (req ∷ reqs) (id ∷ ids) =
      bind-NeverFails _ _ (record_key-NeverFails ledger env ttl _ id)
        λ _. record_keys-NeverFails reqs ids
  record_keys-NeverFails _ _ = pure-NeverFails tt

  post_checked-IsAtomic :
      (reqs : List (PostTransactionRequest D)) → IsAtomic ledger (post_checked env v ttl reqs)
  unfolding post_checked
  post_checked-IsAtomic reqs = bind-IsAtomic ledger _ _ (check_requests-KeepsDb 0 reqs) λ _.
      bind-IsAtomic ledger _ _ (wrap-KeepsDb ledger _ _ (begin-KeepsDb ledger env)) λ _.
        bind-IsAtomic ledger _ _ (batch_in_tx-KeepsDb reqs) λ done.
          commit_then-IsAtomic ledger env _ _
            (bind-NeverFails _ _ (record_keys-NeverFails reqs done.0) λ _. pure-NeverFails done.1)

  -- A batch that returns an error, at any of its requests, leaves the ledger as it was.
  pub post_batch-IsAtomic :
      (reqs : List (PostTransactionRequest D)) → IsAtomic ledger (post_batch env v ttl reqs)
  unfolding post_batch
  post_batch-IsAtomic reqs =
      search (if-IsAtomic, raise-KeepsDb, KeepsDb-IsAtomic, post_checked-IsAtomic)
