-- ===== src/Processor/Retried.antt =====
-- The operations that first look at an idempotency key: failure leaves the ledger as it was, though
-- an expired key may be gone.
use double_entry_ledger_engi.Processor.Atomic.{execute-IsAtomic, recorded-NeverFails}
use double_entry_ledger_engi.Processor.Frames.{validate_accounts_for_post-KeepsDb}
use double_entry_ledger_engi.Processor.Validate.{validate_accounts_and_balances}
use double_entry_ledger_engi.Processor.{PostTransactionRequest, ReversalRequest}
use double_entry_ledger_engi.Processor.Reverse.{
  answer_reversal, load_reversal, reverse_transaction_uuid, write_reversal,
}
use double_entry_ledger_engi.Processor.Post.{answer, post_transaction}
use double_entry_ledger_engi.Domain.Validator.{TransactionValidator}
use double_entry_ledger_engi.Decimal.{Decimal}
use double_entry_ledger_engi.Domain.Errors.{ValidationError}
use double_entry_ledger_engi.Processor.Write.{check, check_key, record_key, ignore}
use double_entry_ledger_engi.Idempotency.{
  check_row, delete_expired, check_and_reserve, compare_existing, insert_key_row, record_success,
}
use double_entry_ledger_engi.Base.{
  List, ℕ, Option, String, arith, some, suc, zero, Result, none, refl, ◌≡◌, err, ok, Bool-cases,
  inl, ◌∙◌, inr, ◌++◌, ◌∷◌, [],
}
use double_entry_ledger_engi.Concurrency.{
  RetryConfig, attempts, execute_with_retry, wait, after_attempt, is_retryable_error,
}
use double_entry_ledger_engi.Store.{
  Db, Env, AccountRow, M, CurrencyRow, run, KeyRow, TransactionRow, Uuid, EntryRow, Error,
  SnapshotRow, World, write_pool, pool,
}
use double_entry_ledger_engi.Store.Frame.{
  KeepsDb, IsAtomic, keeps_db, bind-IsAtomic, begin-KeepsDb, wrap-KeepsDb, commit_then-IsAtomic,
  KeepsDb-IsAtomic, now-KeepsDb, new_uuid-KeepsDb, raise-KeepsDb,
}
use double_entry_ledger_engi.Ledger.Frames.{
  insert_entries-KeepsDb, insert_reversal_row-KeepsDb,
  get_transaction_with_entries_for_update-KeepsDb, get_transaction_with_entries-KeepsDb,
  mark_original_transaction_reversed-KeepsDb,
}

-- The tables of the ledger, without the idempotency keys.
abbrev pub ledger :
    {D : Type 0}
    → Db D
    → List AccountRow
      × List CurrencyRow
      × List TransactionRow
      × List (EntryRow D)
      × List (SnapshotRow D)
ledger db = (db.accounts, db.account_currencies, db.transactions, db.entries, db.balance_snapshots)

module _ {D : Type 0} (env : Env) (ttl : ℕ) where
  delete_expired-KeepsDb : (key : String) → KeepsDb {D = D} ledger (delete_expired env key)
  unfolding delete_expired run
  delete_expired-KeepsDb key = record { same_db = λ w. ground arith }

  check_row-KeepsDb :
      (key : String) (o : Option KeyRow) → KeepsDb {D = D} ledger (check_row env key ttl o)
  unfolding check_row
  check_row-KeepsDb key none = search keeps_db depth 9
  check_row-KeepsDb key (some row) = search (keeps_db, delete_expired-KeepsDb) depth 12

  pub check_key-KeepsDb : (key : Option String) → KeepsDb {D = D} ledger (check_key env ttl key)
  unfolding check_key check_and_reserve
  check_key-KeepsDb none = search keeps_db
  check_key-KeepsDb (some key) = search (keeps_db, check_row-KeepsDb) depth 12

  pub check-KeepsDb :
      (t : String) (o : Option (ValidationError D)) → KeepsDb {D = D} ledger (check t o)
  unfolding check
  check-KeepsDb t none = search keeps_db
  check-KeepsDb t (some e) = search keeps_db

  compare_existing-KeepsDb :
      (key : String) (id : Uuid) (o : Option KeyRow)
      → KeepsDb {D = D} ledger (compare_existing env key id o)
  unfolding compare_existing
  compare_existing-KeepsDb key id none = search keeps_db
  compare_existing-KeepsDb key id (some row) = search keeps_db

  write_key-KeepsDb :
      (row : KeyRow)
      → KeepsDb {D = D} ledger
          (write_pool (λ db. record db { idempotency_keys = db.idempotency_keys ++ row ∷ [] }))
  unfolding run
  write_key-KeepsDb row = record { same_db = λ w. refl }

  insert_key_row-KeepsDb :
      (key : String) (id : Uuid) (created_at expires_at : ℕ)
      → KeepsDb {D = D} ledger (insert_key_row env key id created_at expires_at)
  unfolding insert_key_row
  insert_key_row-KeepsDb key id created_at expires_at =
      search (keeps_db, write_key-KeepsDb) depth 14

  record_success-KeepsDb :
      (key : String) (id : Uuid) → KeepsDb {D = D} ledger (record_success env key id ttl)
  unfolding record_success
  record_success-KeepsDb key id =
      search (keeps_db, insert_key_row-KeepsDb, compare_existing-KeepsDb) depth 14

  pub record_key-KeepsDb :
      (key : Option String) (id : Uuid) → KeepsDb {D = D} ledger (record_key env ttl key id)
  unfolding record_key ignore
  record_key-KeepsDb none id = search keeps_db
  record_key-KeepsDb (some key) id = record {
    same_db = λ w. (record_success-KeepsDb key id).same_db w;
  }

-- Retries: each failed attempt leaves the view, so their chain does.
module _ {D X A : Type 0} (view : Db D → X) (env : Env) (config : RetryConfig) (m : M D A)
    (atomic : IsAtomic view m) where
  pub wait-KeepsDb : KeepsDb view (wait env)
  unfolding wait
  wait-KeepsDb = record { same_db = λ w. refl }

  after_attempt-undone :
      (again : Error D → M D A) (v : X) (p : Result (Error D) A × World D) (e : Error D)
      → ((x : Error D) → IsAtomic view (again x))
      → ((x : Error D) → p.0 ≡ err x → view p.1.db ≡ v)
      → (after_attempt env config m again p).0 ≡ err e
      → view (after_attempt env config m again p).1.db ≡ v
  after_attempt-undone again v (ok a, w) e h k q = cc
  after_attempt-undone again v (err x, w) e h k q =
      elim (Bool-cases (is_retryable_error config.retryable_errors x)) [
        | inl r ↦ rw r ((h x).undone w e (rw r at q) ∙ k x refl)
        | inr r ↦ rw r (k x refl)
      ]

  attempts-IsAtomic : (left : ℕ) → IsAtomic view (attempts env config m left)
  unfolding attempts
  attempts-IsAtomic zero = record {
    undone = λ w e.
        after_attempt-undone _ _ (m w) e (λ x. KeepsDb-IsAtomic view _ (raise-KeepsDb view _))
          (atomic.undone w);
  }
  attempts-IsAtomic (suc left) = record {
    undone = λ w e.
        after_attempt-undone _ _ (m w) e
          (λ x. bind-IsAtomic view _ _ wait-KeepsDb λ _. attempts-IsAtomic left) (atomic.undone w);
  }

  pub execute_with_retry-IsAtomic : IsAtomic view (execute_with_retry env config m)
  unfolding execute_with_retry
  execute_with_retry-IsAtomic = attempts-IsAtomic config.max_retries

module _ {D : Type 0} ⦃dec : Decimal D⦄ (env : Env) (v : TransactionValidator) (ttl : ℕ) where
  answer-IsAtomic :
      (req : PostTransactionRequest D) (o : Option Uuid) → IsAtomic ledger (answer env v ttl req o)
  unfolding answer
  answer-IsAtomic req none =
      bind-IsAtomic ledger _ _ (check-KeepsDb env ttl _ _)
        λ _. execute_with_retry-IsAtomic ledger env _ _ (execute-IsAtomic ledger env ttl req)
  answer-IsAtomic req (some id) =
      KeepsDb-IsAtomic ledger _ (get_transaction_with_entries-KeepsDb ledger env pool id)

  -- Posting returns an error, after any number of retries, only with the ledger as it was.
  pub post_transaction-IsAtomic :
      (req : PostTransactionRequest D) → IsAtomic ledger (post_transaction env v ttl req)
  unfolding post_transaction
  post_transaction-IsAtomic req =
      bind-IsAtomic ledger _ _ (check_key-KeepsDb env ttl _) λ o. answer-IsAtomic req o

  load_reversal-KeepsDb :
      (id : Uuid) (req : ReversalRequest) → KeepsDb {D = D} ledger (load_reversal env v ttl id req)
  unfolding load_reversal validate_accounts_and_balances
  load_reversal-KeepsDb id req =
      search
        (
          keeps_db,
          get_transaction_with_entries_for_update-KeepsDb,
          check-KeepsDb env ttl,
          validate_accounts_for_post-KeepsDb,
        )
        depth 16

  write_reversal-KeepsDb :
      (original : Uuid) (req : PostTransactionRequest D) (id : Uuid) (posted_at : ℕ)
      → KeepsDb ledger (write_reversal env v ttl original req id posted_at)
  unfolding write_reversal
  write_reversal-KeepsDb original req id posted_at =
      search
        (
          keeps_db, insert_reversal_row-KeepsDb, insert_entries-KeepsDb,
          mark_original_transaction_reversed-KeepsDb,
        )
        depth 16

  answer_reversal-IsAtomic :
      (original : Uuid) (req : ReversalRequest) (o : Option Uuid)
      → IsAtomic {D = D} ledger (answer_reversal env v ttl original req o)
  unfolding answer_reversal
  answer_reversal-IsAtomic original req none =
      bind-IsAtomic ledger _ _ (wrap-KeepsDb ledger _ _ (begin-KeepsDb ledger env)) λ _.
        bind-IsAtomic ledger _ _ (load_reversal-KeepsDb original req) λ reversal.
          bind-IsAtomic ledger _ _ (new_uuid-KeepsDb ledger env) λ id.
            bind-IsAtomic ledger _ _ (now-KeepsDb ledger env) λ posted_at.
              bind-IsAtomic ledger _ _ (write_reversal-KeepsDb original reversal id posted_at)
                λ result.
                  commit_then-IsAtomic ledger env _ _
                    (recorded-NeverFails ledger env ttl _ id result)
  answer_reversal-IsAtomic original req (some id) =
      KeepsDb-IsAtomic ledger _ (get_transaction_with_entries-KeepsDb ledger env pool id)

  -- Reversing returns an error only with the ledger as it was.
  pub reverse-IsAtomic :
      (original : Uuid) (req : ReversalRequest)
      → IsAtomic {D = D} ledger (reverse_transaction_uuid env v ttl original req)
  unfolding reverse_transaction_uuid
  reverse-IsAtomic original req =
      bind-IsAtomic ledger _ _ (check_key-KeepsDb env ttl _)
        λ o. answer_reversal-IsAtomic original req o
