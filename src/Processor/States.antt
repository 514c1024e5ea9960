-- ===== src/Processor/States.antt =====
-- The states of a transaction: what settling and cancelling do to the tables.
use double_entry_ledger_engi.Processor.Atomic.{settle-IsAtomic, cancel-IsAtomic}
use double_entry_ledger_engi.Processor.Cancel.{cancel_pending_transaction_uuid, cancel_in_tx}
use double_entry_ledger_engi.Base.{
  ◌≡◌, arith, ok, find, some, suc, Option-cases, inl, inr, Result, ◌≢◌, err, refl, Option, List, ℕ,
  ◌∙◌, ap, map, ◌∷◌, if◌then◌else◌, [], ◌==◌,
}
use double_entry_ledger_engi.Domain.{Transaction, pending, cancelled, settled}
use double_entry_ledger_engi.Ledger.{
  get_transaction_header_for_update, query_header, update_transaction_settled,
  update_transaction_row, get_transaction_with_entries, query_entries, has_id, update_rows,
  update_transaction_cancelled,
}
use double_entry_ledger_engi.Processor.Settle.{
  settle_pending_transaction_uuid, settle_in_tx, require_pending,
}
use double_entry_ledger_engi.Store.{Env, run, Uuid, World, TransactionRow, Error}
use double_entry_ledger_engi.Decimal.{Decimal}

same_state :
    (row r : TransactionRow) (o : Option TransactionRow)
    → o ≡ some row
    → o ≡ some r
    → r.state ≡ pending
    → row.state ≡ pending
same_state row r o found e p = cc

-- The rows in which the one of the identifier is changed by `f` and every other row is kept.
abbrev pub with_changed :
    (TransactionRow → TransactionRow) → Uuid → List TransactionRow → List TransactionRow
with_changed f id = map (λ (row : TransactionRow). if row.transaction_id == id then f row else row)

update_rows-with_changed :
    (id : Uuid) (f : TransactionRow → TransactionRow) (rows : List TransactionRow)
    → update_rows id f rows ≡ with_changed f id rows
update_rows-with_changed id f [] = refl
update_rows-with_changed id f (row ∷ rows) =
    ap (λ l. (if has_id id row then f row else row) ∷ l) (update_rows-with_changed id f rows)

-- A row settled at a time: the state and the settling time change, no other column does.
abbrev pub as_settled : ℕ → TransactionRow → TransactionRow
as_settled time row = record {
  transaction_id = row.transaction_id;
  idempotency_key = row.idempotency_key;
  state = settled;
  posted_at = row.posted_at;
  settled_at = some time;
  reversed_by = row.reversed_by;
  reverses = row.reverses;
  metadata = row.metadata;
}

-- A cancelled row: the state changes, no other column does.
abbrev pub as_cancelled : TransactionRow → TransactionRow
as_cancelled row = record {
  transaction_id = row.transaction_id;
  idempotency_key = row.idempotency_key;
  state = cancelled;
  posted_at = row.posted_at;
  settled_at = row.settled_at;
  reversed_by = row.reversed_by;
  reverses = row.reverses;
  metadata = row.metadata;
}

module _ {D : Type 0} ⦃dec : Decimal D⦄ (env : Env) where
  settled_db :
      (id : Uuid) (w : World D) (t : Transaction D)
      → (settle_pending_transaction_uuid env id w).0 ≡ ok t
      → (settle_pending_transaction_uuid env id w).1.db ≡ record w.db {
        transactions = update_rows id (as_settled (env.now (suc (suc w.tick)))) w.db.transactions;
      }
  unfolding settle_pending_transaction_uuid settle_in_tx require_pending run
      get_transaction_header_for_update query_header update_transaction_settled
      update_transaction_row get_transaction_with_entries query_entries
  settled_db id w t h = ground arith

  cancelled_db :
      (id : Uuid) (w : World D) (t : Transaction D)
      → (cancel_pending_transaction_uuid env id w).0 ≡ ok t
      → (cancel_pending_transaction_uuid env id w).1.db
        ≡ record w.db { transactions = update_rows id as_cancelled w.db.transactions }
  unfolding cancel_pending_transaction_uuid cancel_in_tx require_pending run
      get_transaction_header_for_update query_header update_transaction_cancelled
      update_transaction_row get_transaction_with_entries query_entries
  cancelled_db id w t h = ground arith

  -- Settling that succeeds found the transaction pending, and its one effect on the committed tables
  -- is that the row is settled, at the time that the clock shows.
  pub settle-as_settled :
      (id : Uuid) (w : World D) (t : Transaction D)
      → (settle_pending_transaction_uuid env id w).0 ≡ ok t
      → (row : TransactionRow) × (find (has_id id) w.db.transactions ≡ some row)
        × (row.state ≡ pending)
        × ((settle_pending_transaction_uuid env id w).1.db ≡ record w.db {
          transactions =
              with_changed (as_settled (env.now (suc (suc w.tick)))) id w.db.transactions;
        })
  unfolding settle_pending_transaction_uuid settle_in_tx require_pending run
      get_transaction_header_for_update query_header update_transaction_settled
      update_transaction_row get_transaction_with_entries query_entries
  settle-as_settled id w t h = elim (Option-cases (find (has_id id) w.db.transactions)) [
    | inl n ↦ absurd (ground arith)
    | inr (row, e) ↦
        let changed =
          update_rows-with_changed id (as_settled (env.now (suc (suc w.tick)))) w.db.transactions in
        (
          row,
          e,
          ground arith,
          settled_db id w t h ∙ ap (λ l. record w.db { transactions = l }) changed,
        )
  ]

  -- Cancelling that succeeds found the transaction pending, and its one effect on the committed
  -- tables is that the row is cancelled.
  pub cancel-as_cancelled :
      (id : Uuid) (w : World D) (t : Transaction D)
      → (cancel_pending_transaction_uuid env id w).0 ≡ ok t
      → (row : TransactionRow) × (find (has_id id) w.db.transactions ≡ some row)
        × (row.state ≡ pending)
        × ((cancel_pending_transaction_uuid env id w).1.db
            ≡ record w.db { transactions = with_changed as_cancelled id w.db.transactions })
  unfolding cancel_pending_transaction_uuid cancel_in_tx require_pending run
      get_transaction_header_for_update query_header update_transaction_cancelled
      update_transaction_row get_transaction_with_entries query_entries
  cancel-as_cancelled id w t h = elim (Option-cases (find (has_id id) w.db.transactions)) [
    | inl n ↦ absurd (ground arith)
    | inr (row, e) ↦
        let changed = update_rows-with_changed id as_cancelled w.db.transactions in
        (
          row,
          e,
          ground arith,
          cancelled_db id w t h ∙ ap (λ l. record w.db { transactions = l }) changed,
        )
  ]

  pub refused :
      (r : Result (Error D) (Transaction D)) (P : Type 0)
      → ((t : Transaction D) → r ≡ ok t → P)
      → ¬ P
      → (e : Error D) × (r ≡ err e)
  refused (ok t) P f n = absurd (n (f t refl))
  refused (err e) P f n = (e, refl)

  -- A transaction that is not pending can be neither settled nor cancelled: both return an error and
  -- leave the committed tables as they were.
  pub not_pending-final :
      (id : Uuid) (w : World D) (row : TransactionRow)
      → find (has_id id) w.db.transactions ≡ some row
      → row.state ≢ pending
      → ((e : Error D) × ((settle_pending_transaction_uuid env id w).0 ≡ err e))
        × ((settle_pending_transaction_uuid env id w).1.db ≡ w.db)
        × ((e : Error D) × ((cancel_pending_transaction_uuid env id w).0 ≡ err e))
        × ((cancel_pending_transaction_uuid env id w).1.db ≡ w.db)
  not_pending-final id w row found other =
      let s =
        refused _ (row.state ≡ pending)
          (λ t h. let (r, e, p, _) = settle-as_settled id w t h in same_state row r _ found e p)
          other in
      let c =
        refused _ (row.state ≡ pending)
          (λ t h. let (r, e, p, _) = cancel-as_cancelled id w t h in same_state row r _ found e p)
          other in
      (
        s,
        (settle-IsAtomic (λ db. db) env id).undone w s.0 s.1,
        c,
        (cancel-IsAtomic (λ db. db) env id).undone w c.0 c.1,
      )
