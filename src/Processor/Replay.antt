-- ===== src/Processor/Replay.antt =====
-- A request whose key is known answers with the transaction of the key.
use double_entry_ledger_engi.Processor.Completes.{shown}
use double_entry_ledger_engi.Store.Success.{IsReliable}
use double_entry_ledger_engi.Ledger.{
  get_transaction_with_entries, query_header, has_id, query_entries,
}
use double_entry_ledger_engi.Ledger.Frames.{get_transaction_with_entries-KeepsDb}
use double_entry_ledger_engi.Processor.{PostTransactionRequest, used_key}
use double_entry_ledger_engi.Idempotency.{
  check_and_reserve, select_row, check_row, check_found, has_key,
}
use double_entry_ledger_engi.Processor.Write.{check_key}
use double_entry_ledger_engi.Processor.Post.{post_transaction, answer, get_transaction_by_id}
use double_entry_ledger_engi.Base.{
  ℕ, String, ◌≡◌, some, find, none, suc, ◌≤◌, ap, ok, arith, next, ◌∙◌,
}
use double_entry_ledger_engi.Domain.Validator.{TransactionValidator}
use double_entry_ledger_engi.Store.{
  Env, run, World, KeyRow, select_key, pool, TransactionRow, Uuid, select_transaction,
  select_entries,
}
use double_entry_ledger_engi.Decimal.{Decimal}

module _ {D : Type 0} ⦃dec : Decimal D⦄ (env : Env) (v : TransactionValidator) (ttl : ℕ) where
  key_known :
      (key : String) (w : World D) (row : KeyRow)
      → find (has_key key) w.db.idempotency_keys ≡ some row
      → env.fault w.tick select_key ≡ none
      → env.now (suc w.tick) ≤ row.expires_at
      → check_key env ttl (some key) w
        ≡ (ok (some row.transaction_id), record w { tick = suc (suc w.tick) })
  unfolding check_key check_and_reserve select_row check_row check_found run
  key_known key w row h f t = ground arith

  transaction_read :
      (id : Uuid) (w : World D) (txn : TransactionRow)
      → IsReliable env
      → find (has_id id) w.db.transactions ≡ some txn
      → (get_transaction_by_id env v ttl id w).0 ≡ ok (shown env w.db txn id)
  unfolding get_transaction_by_id get_transaction_with_entries query_header query_entries run
  transaction_read id w txn reliable h =
      let header = reliable w.tick select_transaction in
      let entries = reliable (suc w.tick) select_entries in ground arith

  -- Where no call fails, posting with a key that is in the table and has not expired writes nothing
  -- and answers with the transaction that the key was recorded for, with all its entries, whatever
  -- else the request asks.
  pub post_transaction-replay :
      (req : PostTransactionRequest D) (key : String) (w : World D) (row : KeyRow)
      (txn : TransactionRow)
      → IsReliable env
      → used_key req.idempotency_key ≡ some key
      → find (has_key key) w.db.idempotency_keys ≡ some row
      → env.now (suc w.tick) ≤ row.expires_at
      → find (has_id row.transaction_id) w.db.transactions ≡ some txn
      → ((post_transaction env v ttl req w).1.db ≡ w.db)
        × ((post_transaction env v ttl req w).0 ≡ ok (shown env w.db txn row.transaction_id))
  unfolding post_transaction run answer get_transaction_by_id
  post_transaction-replay req key w row txn reliable k h t found = (
    ap (λ p. p.1.db) read
        ∙ (get_transaction_with_entries-KeepsDb (λ db. db) env pool row.transaction_id).same_db _,
    ap (λ p. p.0) read
        ∙ transaction_read row.transaction_id (record w { tick = suc (suc w.tick) }) txn reliable
            found,
  )
    where
      read :
          post_transaction env v ttl req w
          ≡ get_transaction_by_id env v ttl row.transaction_id
              (record w { tick = suc (suc w.tick) })
      read = rw k (ap (next (answer env v ttl req)) (key_known key w row h (reliable _ _) t))
