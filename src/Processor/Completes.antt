-- ===== src/Processor/Completes.antt =====
-- Settling and cancelling of internal/service/transaction, when no call fails.
use double_entry_ledger_engi.Store.Success.{IsReliable}
use double_entry_ledger_engi.Processor.States.{
  settle-as_settled, cancel-as_cancelled, as_settled, with_changed, as_cancelled,
}
use double_entry_ledger_engi.Processor.Cancel.{cancel_pending_transaction_uuid, cancel_in_tx}
use double_entry_ledger_engi.Base.{
  List, find, map, filter, ◌≡◌, some, ◌==◌, ok, ◌∷◌, Bool-cases, suc, inl, refl, inr, [], true,
  subst, sym, ap,
}
use native.Mathlib.Omega.{arith}
use double_entry_ledger_engi.Processor.Settle.{
  settle_pending_transaction_uuid, settle_in_tx, require_pending,
}
use double_entry_ledger_engi.Ledger.{
  scan_transaction, scan_entry, get_transaction_header_for_update, query_header,
  update_transaction_settled, update_transaction_row, get_transaction_with_entries, query_entries,
  has_id, update_rows, settle_row, cancel_row, update_transaction_cancelled,
}
use double_entry_ledger_engi.Store.{
  Env, run, Uuid, World, TransactionRow, EntryRow, Db, begin_tx, select_transaction,
  update_transaction, select_entries, publish, commit_tx,
}
use double_entry_ledger_engi.Domain.{Transaction, pending}
use double_entry_ledger_engi.Decimal.{Decimal}

find-update_rows :
    (id : Uuid) (f : TransactionRow → TransactionRow) (rows : List TransactionRow)
    (row : TransactionRow)
    → ((r : TransactionRow) → (f r).transaction_id ≡ r.transaction_id)
    → find (has_id id) rows ≡ some row
    → find (has_id id) (update_rows id f rows) ≡ some (f row)
find-update_rows id f [] row keeps h = absurd cc
find-update_rows id f (r ∷ rows) row keeps h = elim (Bool-cases (has_id id r)) [
  | inl y ↦
      let first : r ≡ row = ground arith in
      let kept : has_id id (f r) ≡ true = subst (λ n. (n == id) ≡ true) (sym (keeps r)) y in
      rw (y, kept) (ap (λ x. some (f x)) first)
  | inr n ↦ ground (arith, find-update_rows id f rows row keeps)
]

module _ {D : Type 0} ⦃dec : Decimal D⦄ (env : Env) where
  -- The transaction of a row with its entries.
  abbrev pub shown : Db D → TransactionRow → Uuid → Transaction D
  shown db row id = record (scan_transaction env row) {
    entries = map (scan_entry env) (filter (λ (e : EntryRow D). e.transaction_id == id) db.entries);
  }

  settled_answer :
      (id : Uuid) (w : World D) (row : TransactionRow)
      → IsReliable env
      → find (has_id id) w.db.transactions ≡ some row
      → row.state ≡ pending
      → (settle_pending_transaction_uuid env id w).0
        ≡ ok (shown w.db (settle_row (env.now (suc (suc w.tick))) row) id)
  unfolding settle_pending_transaction_uuid settle_in_tx require_pending run
      get_transaction_header_for_update query_header update_transaction_settled
      update_transaction_row get_transaction_with_entries query_entries
  settled_answer id w row reliable h p =
      let t = w.tick in
      rw
        (
          reliable t begin_tx,
          reliable (suc t) select_transaction,
          h,
          p,
          reliable (suc (suc (suc t))) update_transaction,
          reliable (suc (suc (suc (suc t)))) select_transaction,
          find-update_rows id (settle_row (env.now (suc (suc t)))) w.db.transactions row (λ r. refl)
              h,
          reliable (suc (suc (suc (suc (suc t))))) select_entries,
          reliable (suc (suc (suc (suc (suc (suc t)))))) publish,
        )
        (ground (
          arith,
          reliable (suc (suc (suc (suc (suc (suc t)))))) publish,
          reliable (suc (suc (suc (suc (suc (suc (suc t))))))) commit_tx,
        ))

  cancelled_answer :
      (id : Uuid) (w : World D) (row : TransactionRow)
      → IsReliable env
      → find (has_id id) w.db.transactions ≡ some row
      → row.state ≡ pending
      → (cancel_pending_transaction_uuid env id w).0 ≡ ok (shown w.db (cancel_row row) id)
  unfolding cancel_pending_transaction_uuid cancel_in_tx require_pending run
      get_transaction_header_for_update query_header update_transaction_cancelled
      update_transaction_row get_transaction_with_entries query_entries
  cancelled_answer id w row reliable h p =
      let t = w.tick in
      rw
        (
          reliable t begin_tx,
          reliable (suc t) select_transaction,
          h,
          p,
          reliable (suc (suc t)) update_transaction,
          reliable (suc (suc (suc t))) select_transaction,
          find-update_rows id cancel_row w.db.transactions row (λ r. refl) h,
          reliable (suc (suc (suc (suc t)))) select_entries,
          reliable (suc (suc (suc (suc (suc t))))) publish,
        )
        (ground (
          arith,
          reliable (suc (suc (suc (suc (suc t))))) publish,
          reliable (suc (suc (suc (suc (suc (suc t)))))) commit_tx,
        ))

  -- Where no call fails, settling and cancelling a pending transaction both succeed: each answers with
  -- the changed row and the entries of the transaction, and that row is all that changes in the
  -- committed tables.
  pub pending-completes :
      (id : Uuid) (w : World D) (row : TransactionRow)
      → IsReliable env
      → find (has_id id) w.db.transactions ≡ some row
      → row.state ≡ pending
      → ((settle_pending_transaction_uuid env id w).0
          ≡ ok (shown w.db (as_settled (env.now (suc (suc w.tick))) row) id))
        × ((settle_pending_transaction_uuid env id w).1.db ≡ record w.db {
          transactions =
              with_changed (as_settled (env.now (suc (suc w.tick)))) id w.db.transactions;
        })
        × ((cancel_pending_transaction_uuid env id w).0 ≡ ok (shown w.db (as_cancelled row) id))
        × ((cancel_pending_transaction_uuid env id w).1.db
            ≡ record w.db { transactions = with_changed as_cancelled id w.db.transactions })
  pending-completes id w row reliable h p =
      let s = settled_answer id w row reliable h p in
      let c = cancelled_answer id w row reliable h p in
      let (_, _, _, settled_db) = settle-as_settled env id w _ s in
      let (_, _, _, cancelled_db) = cancel-as_cancelled env id w _ c in
      (s, settled_db, c, cancelled_db)
