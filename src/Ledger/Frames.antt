-- ===== src/Ledger/Frames.antt =====
-- No statement of ledger_repository.go writes the committed tables: all write the open transaction.
use double_entry_ledger_engi.Base.{ℕ, String, Option, none, some, List, [], ◌∷◌}
use double_entry_ledger_engi.Decimal.{Decimal}
use double_entry_ledger_engi.Domain.{TransactionState, Metadata}
use double_entry_ledger_engi.Store.{Db, Uuid, Env, Runner, in_tx, TransactionRow}
use double_entry_ledger_engi.Store.Frame.{
  KeepsDb, keeps_db, bind-KeepsDb, wrap-KeepsDb, pure-KeepsDb,
}
use double_entry_ledger_engi.Ledger.{
  LedgerEntryInput, insert_row, insert_transaction_row, insert_reversal_row, check_account,
  insert_entry_row, insert_entries, found, query_header, query_entries,
  get_transaction_header_for_update, get_transaction_with_entries_for_update,
  get_transaction_with_entries, update_transaction_settled, update_transaction_cancelled,
  mark_original_transaction_reversed,
}

module _ {D X : Type 0} ⦃dec : Decimal D⦄ (view : Db D → X) (env : Env) where
  insert_row-KeepsDb : (row : TransactionRow) → KeepsDb view (insert_row env row)
  unfolding insert_row
  insert_row-KeepsDb row = search keeps_db depth 9

  check_account-KeepsDb :
      (e : LedgerEntryInput D) (o : Option Uuid) → KeepsDb view (check_account env e o)
  unfolding check_account
  check_account-KeepsDb e none = search keeps_db
  check_account-KeepsDb e (some account) = search keeps_db depth 9

  insert_entry_row-KeepsDb :
      (id : Uuid) (created_at : ℕ) (e : LedgerEntryInput D)
      → KeepsDb view (insert_entry_row env id created_at e)
  unfolding insert_entry_row
  insert_entry_row-KeepsDb id created_at e = search (keeps_db, check_account-KeepsDb) depth 12

  pub insert_entries-KeepsDb :
      (id : Uuid) (es : List (LedgerEntryInput D)) (created_at : ℕ)
      → KeepsDb view (insert_entries env id es created_at)
  unfolding insert_entries
  insert_entries-KeepsDb id [] created_at = search keeps_db
  insert_entries-KeepsDb id (e ∷ es) created_at =
      bind-KeepsDb view _ _ (wrap-KeepsDb view _ _ (insert_entry_row-KeepsDb id created_at e)) λ _.
        bind-KeepsDb view _ _ (insert_entries-KeepsDb id es created_at) λ _. pure-KeepsDb view _

  pub insert_transaction_row-KeepsDb :
      (id : Uuid) (key : Option String) (state : TransactionState) (posted_at : ℕ)
      (settled_at : Option ℕ) (metadata : Metadata)
      → KeepsDb view (insert_transaction_row env id key state posted_at settled_at metadata)
  unfolding insert_transaction_row
  insert_transaction_row-KeepsDb id key state posted_at settled_at metadata = insert_row-KeepsDb _

  pub insert_reversal_row-KeepsDb :
      (id original : Uuid) (key : Option String) (state : TransactionState) (posted_at : ℕ)
      (settled_at : Option ℕ) (metadata : Metadata)
      → KeepsDb view (insert_reversal_row env id original key state posted_at settled_at metadata)
  unfolding insert_reversal_row
  insert_reversal_row-KeepsDb id original key state posted_at settled_at metadata =
      insert_row-KeepsDb _

  found-KeepsDb : (o : Option TransactionRow) → KeepsDb view (found env o)
  found-KeepsDb none = search keeps_db
  found-KeepsDb (some row) = search keeps_db

  query_header-KeepsDb : (r : Runner) (id : Uuid) → KeepsDb view (query_header env r id)
  unfolding query_header
  query_header-KeepsDb r id = search (keeps_db, found-KeepsDb) depth 9

  query_entries-KeepsDb : (r : Runner) (id : Uuid) → KeepsDb view (query_entries env r id)
  unfolding query_entries
  query_entries-KeepsDb r id = search keeps_db depth 9

  pub get_transaction_header_for_update-KeepsDb :
      (id : Uuid) → KeepsDb view (get_transaction_header_for_update env id)
  unfolding get_transaction_header_for_update
  get_transaction_header_for_update-KeepsDb id = query_header-KeepsDb in_tx id

  pub get_transaction_with_entries_for_update-KeepsDb :
      (id : Uuid) → KeepsDb view (get_transaction_with_entries_for_update env id)
  unfolding get_transaction_with_entries_for_update
  get_transaction_with_entries_for_update-KeepsDb id =
      search (keeps_db, query_header-KeepsDb, query_entries-KeepsDb) depth 9

  pub get_transaction_with_entries-KeepsDb :
      (r : Runner) (id : Uuid) → KeepsDb view (get_transaction_with_entries env r id)
  unfolding get_transaction_with_entries
  get_transaction_with_entries-KeepsDb r id =
      search (keeps_db, query_header-KeepsDb, query_entries-KeepsDb) depth 9

  pub update_transaction_settled-KeepsDb :
      (id : Uuid) (settled_at : ℕ) → KeepsDb view (update_transaction_settled env id settled_at)
  unfolding update_transaction_settled
  update_transaction_settled-KeepsDb id settled_at = search keeps_db depth 9

  pub update_transaction_cancelled-KeepsDb :
      (id : Uuid) → KeepsDb view (update_transaction_cancelled env id)
  unfolding update_transaction_cancelled
  update_transaction_cancelled-KeepsDb id = search keeps_db depth 9

  pub mark_original_transaction_reversed-KeepsDb :
      (original reversal : Uuid)
      → KeepsDb view (mark_original_transaction_reversed env original reversal)
  unfolding mark_original_transaction_reversed
  mark_original_transaction_reversed-KeepsDb original reversal = search keeps_db depth 9
