-- ===== src/Processor/Posted.antt =====
-- What executePostTransaction leaves in the tables when it succeeds.
use double_entry_ledger_engi.Processor.Frames.{validate_accounts_for_post-OnlyReads}
use double_entry_ledger_engi.Store.Frame.{bind-KeepsDb, pure-KeepsDb}
use double_entry_ledger_engi.Store.Reading.{next_run, wrap_ok}
use double_entry_ledger_engi.Processor.Rows.{add_rows, AreRowsOf, entries_written}
use double_entry_ledger_engi.Processor.Retried.{ledger, record_key-KeepsDb}
use double_entry_ledger_engi.Domain.{Transaction}
use double_entry_ledger_engi.Processor.Validate.{
  validate_accounts_and_balances_with_locking, validate_accounts_for_post,
}
use double_entry_ledger_engi.Processor.Execute.{execute_post_transaction, write_post}
use double_entry_ledger_engi.Ledger.{insert_transaction_row, insert_row, new_row}
use double_entry_ledger_engi.Base.{
  ℕ, List, String, pure, none, ⊤, ◌++◌, ◌∷◌, ◌≡◌, [], arith, ok, refl, ap, ◌∙◌, true,
}
use double_entry_ledger_engi.Processor.{
  PostTransactionRequest, settled_time, entry_requests_to_ledger_inputs, EntryRequest, used_key,
}
use double_entry_ledger_engi.Store.{
  Db, Env, TransactionRow, Uuid, run, Event, EntryRow, M, World, emit, wrap, begin, commit,
  new_uuid, now,
}
use double_entry_ledger_engi.Decimal.{Decimal}

module _ {D : Type 0} ⦃dec : Decimal D⦄ where
  abbrev pub row_of_request : PostTransactionRequest D → Uuid → ℕ → TransactionRow
  row_of_request req id posted_at =
      new_row id req.idempotency_key req.state posted_at (settled_time req.state posted_at) none
        req.metadata

  -- The tables with the transaction and its rows.
  abbrev pub add_posting : Db D → TransactionRow → List (EntryRow D) → Db D
  add_posting db row rows = record db {
    transactions = db.transactions ++ row ∷ [];
    entries = db.entries ++ rows;
  }

  module _ (env : Env) where
    transaction_written :
        (t : String) (req : PostTransactionRequest D) (id : Uuid) (posted_at : ℕ) (w : World D)
        (u : ⊤)
        → (wrap t
            (insert_transaction_row env id req.idempotency_key req.state posted_at
              (settled_time req.state posted_at)
              req.metadata)
            w).0
          ≡ ok u
        → (wrap t
            (insert_transaction_row env id req.idempotency_key req.state posted_at
              (settled_time req.state posted_at)
              req.metadata)
            w).1.tx
          ≡ record w.tx { transactions = w.tx.transactions ++ row_of_request req id posted_at ∷ [] }
    unfolding insert_transaction_row insert_row run
    transaction_written t req id posted_at w u h = ground arith

    wrapped_tx : {A : Type 0} (t : String) (m : M D A) (w : World D) → (wrap t m w).1 ≡ (m w).1
    unfolding run
    wrapped_tx t m w = refl

    emitted_tx : (e : Event D) (w : World D) → (emit env e w).1.tx ≡ w.tx
    unfolding run
    emitted_tx e w = ground arith

    committed_db :
        (t : String) (w : World D) (u : ⊤)
        → (wrap t (commit env) w).0 ≡ ok u
        → (wrap t (commit env) w).1.db ≡ w.tx
    unfolding run
    committed_db t w u h = ground arith

    begun_tx : (t : String) (w : World D) → (wrap t (begin env) w).1.tx ≡ w.db
    unfolding run
    begun_tx t w = refl

    pub opened_tx :
        (t : String) (es : List (EntryRequest D)) (w : World D)
        → (now env
            (new_uuid env
              (validate_accounts_for_post env true es (wrap t (begin env) w).1).1).1).1.tx
          ≡ w.db
    unfolding now new_uuid
    opened_tx t es w =
        ((validate_accounts_for_post-OnlyReads env true es).same_tables (wrap t (begin env) w).1).1
        ∙ begun_tx t w

    module _ (ttl : ℕ) where
      posting_written :
          (req : PostTransactionRequest D) (id : Uuid) (posted_at : ℕ) (w : World D)
          (t : Transaction D)
          → (write_post env ttl req id posted_at w).0 ≡ ok t
          → (rows : List (EntryRow D)) × ((write_post env ttl req id posted_at w).1.tx
              ≡ add_posting w.tx (row_of_request req id posted_at) rows)
            × AreRowsOf env id (entry_requests_to_ledger_inputs req.entries) rows
      unfolding write_post pure
      posting_written req id posted_at w t h =
          let (u, inserted, h1, e1) = next_run _ _ w t h in
          let (xs, entered, h2, e2) = next_run _ _ _ t h1 in
          let (u2, emitted, _, e3) = next_run _ _ _ t h2 in
          let (rows, rows_written, rows_are) =
            entries_written env id _ posted_at _ xs (wrap_ok _ _ _ xs entered) in
          (
            rows,
            ap (λ v. v.tx) (e1 ∙ e2 ∙ e3)
                ∙ ap (λ v. v.tx) (wrapped_tx _ _ _)
                ∙ emitted_tx _ _
                ∙ ap (λ v. v.tx) (wrapped_tx _ _ _)
                ∙ rows_written
                ∙ ap (λ d. add_rows d rows) (transaction_written _ req id posted_at w u inserted),
            rows_are,
          )

      pub execute_post_transaction-AreRowsOf :
          (req : PostTransactionRequest D) (w : World D) (t : Transaction D)
          → (execute_post_transaction env ttl req w).0 ≡ ok t
          → (id : Uuid) × (posted_at : ℕ) × (rows : List (EntryRow D)) × (ledger
                (execute_post_transaction env ttl req w).1.db
              ≡ ledger (add_posting w.db (row_of_request req id posted_at) rows))
            × AreRowsOf env id (entry_requests_to_ledger_inputs req.entries) rows
      unfolding execute_post_transaction validate_accounts_and_balances_with_locking
      execute_post_transaction-AreRowsOf req w t h =
          let (u0, begun, h0, e0) = next_run _ _ w t h in
          let (u1, checked, h1, e1) = next_run _ _ _ t h0 in
          let (id, _, h2, e2) = next_run (new_uuid env) _ _ t h1 in
          let (posted_at, _, h3, e3) = next_run (now env) _ _ t h2 in
          let (result, posted, h4, e4) = next_run _ _ _ t h3 in
          let (u5, done, h5, e5) = next_run _ _ _ t h4 in
          let (rows, posting, rows_are) = posting_written req id posted_at _ result posted in
          (
            id,
            posted_at,
            rows,
            ap (λ v. ledger v.db) (e0 ∙ e1 ∙ e2 ∙ e3 ∙ e4 ∙ e5)
                ∙ (bind-KeepsDb ledger _ _
                      (record_key-KeepsDb env ttl (used_key req.idempotency_key) id)
                      λ _. pure-KeepsDb ledger result).same_db
                    _
                ∙ ap ledger (committed_db _ _ u5 done ∙ posting)
                ∙ (λ i. ledger (
                    add_posting (opened_tx "failed to begin transaction" req.entries w i)
                      (row_of_request req id posted_at) rows)),
            rows_are,
          )
