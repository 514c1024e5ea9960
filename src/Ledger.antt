-- ===== src/Ledger.antt =====
-- internal/infrastructure/postgres/ledger_repository.go: the statements on the tables `transactions`
-- and `entries`, with the constraints of migrations/000001_initial_schema.up.sql.
mod Rows
pub mod Frames
pub use Rows.*
use double_entry_ledger_engi.Base.{
  ℕ, ⊤, Bool, true, false, String, Option, none, some, List, [], ◌∷◌, ◌++◌, map, not, ◌||◌, ok, err,
  ◌>>=◌, ◌>>◌, pure, raise, map_err, ◌==◌, same, if◌then◌else◌, filter, find, any,
}
use double_entry_ledger_engi.Decimal.{Decimal}
use double_entry_ledger_engi.Domain.{
  EntryType, TransactionState, settled, cancelled, Entry, Transaction, Metadata,
}
use double_entry_ledger_engi.Store.{
  Uuid, AccountRow, TransactionRow, EntryRow, Db, Error, Env, M, Runner, in_tx, tables, reads,
  write_tx, call, new_uuid, wrap, driver, pg_error, no_rows, message, insert_transaction,
  insert_entry, select_transaction, select_entries, update_transaction,
}

abbrev pub scan_id : Env → Option Uuid → Option String
scan_id env none = none
scan_id env (some id) = some (env.to_string id)

module _ {D : Type 0} ⦃dec : Decimal D⦄ (env : Env) where
  abbrev pub pg : {A : Type 0} → String → M D A
  pg code = raise (driver (pg_error code))

  unfoldable pub insert_row : TransactionRow → M D ⊤
  insert_row row = do
    call env insert_transaction
    taken ← reads in_tx (λ db. any (clashes row.transaction_id row.idempotency_key) db.transactions)
    if taken
        then pg unique_violation
        else write_tx (λ db. record db { transactions = db.transactions ++ row ∷ [] })

  unfoldable pub insert_transaction_row :
      Uuid → Option String → TransactionState → ℕ → Option ℕ → Metadata → M D ⊤
  unfolding insert_row
  insert_transaction_row id key state posted_at settled_at metadata =
      insert_row (new_row id key state posted_at settled_at none metadata)

  -- The foreign key of `reverses_transaction_id` holds, as the original is locked and found before.
  unfoldable pub insert_reversal_row :
      Uuid → Uuid → Option String → TransactionState → ℕ → Option ℕ → Metadata → M D ⊤
  unfolding insert_row
  insert_reversal_row id original key state posted_at settled_at metadata =
      insert_row (new_row id key state posted_at settled_at (some original) metadata)

  abbrev pub row_of : Uuid → Uuid → Uuid → ℕ → LedgerEntryInput D → EntryRow D
  row_of entry_id id account created_at e = record {
    entry_id = entry_id;
    transaction_id = id;
    account_id = account;
    currency_code = e.currency_code;
    amount = e.amount;
    entry_type = e.entry_type;
    description = e.description;
    created_at = created_at;
  }

  abbrev pub entry_of : Uuid → Uuid → ℕ → LedgerEntryInput D → Entry D
  entry_of entry_id id created_at e = record {
    entry_id = env.to_string entry_id;
    transaction_id = env.to_string id;
    account_id = e.account_id;
    currency_code = e.currency_code;
    amount = e.amount;
    entry_type = e.entry_type;
    description = e.description;
    created_at = created_at;
  }

  -- The text of the account becomes a UUID in the statement; then the foreign key and the CHECK.
  unfoldable pub check_account : LedgerEntryInput D → Option Uuid → M D Uuid
  check_account e none = pg invalid_text
  check_account e (some account) = do
    known ← reads in_tx (λ db. any (λ (a : AccountRow). a.account_id == account) db.accounts)
    if dec.is_negative e.amount
        then pg check_violation
        else if known
        then pure account
        else pg foreign_key_violation

  unfoldable pub check_entry : LedgerEntryInput D → M D Uuid
  unfolding check_account
  check_entry e = check_account e (env.parse e.account_id)

  unfoldable pub insert_entry_row : Uuid → ℕ → LedgerEntryInput D → M D (Entry D)
  unfolding check_entry
  insert_entry_row id created_at e = do
    entry_id ← new_uuid env
    call env insert_entry
    account ← check_entry e
    write_tx
        (λ db. record db { entries = db.entries ++ row_of entry_id id account created_at e ∷ [] })
    pure (entry_of entry_id id created_at e)

  unfoldable pub insert_entries : Uuid → List (LedgerEntryInput D) → ℕ → M D (List (Entry D))
  unfolding insert_entry_row
  insert_entries id [] created_at = pure []
  insert_entries id (e ∷ es) created_at = do
    entry ← wrap "failed to insert entry" (insert_entry_row id created_at e)
    entries ← insert_entries id es created_at
    pure (entry ∷ entries)

  abbrev pub scan_entry : EntryRow D → Entry D
  scan_entry row = record {
    entry_id = env.to_string row.entry_id;
    transaction_id = env.to_string row.transaction_id;
    account_id = env.to_string row.account_id;
    currency_code = row.currency_code;
    amount = row.amount;
    entry_type = row.entry_type;
    description = row.description;
    created_at = row.created_at;
  }

  abbrev pub scan_transaction : TransactionRow → Transaction D
  scan_transaction row = record {
    transaction_id = env.to_string row.transaction_id;
    idempotency_key = row.idempotency_key;
    state = row.state;
    posted_at = row.posted_at;
    settled_at = row.settled_at;
    reversed_by_transaction_id = scan_id env row.reversed_by;
    reverses_transaction_id = scan_id env row.reverses;
    entries = [];
    metadata = row.metadata;
  }

  abbrev pub found : Option TransactionRow → M D (Transaction D)
  found none = raise no_rows
  found (some row) = pure (scan_transaction row)

  -- The query of one header. Any failure but an empty result is wrapped.
  unfoldable pub query_header : Runner → Uuid → M D (Transaction D)
  query_header r id = do
    wrap "failed to query transaction" (call env select_transaction)
    row ← reads r (λ db. find (has_id id) db.transactions)
    found row

  -- The entries of one transaction were inserted at one `created_at`, so ORDER BY leaves them.
  unfoldable pub query_entries : Runner → Uuid → M D (List (Entry D))
  query_entries r id = do
    wrap "failed to query entries" (call env select_entries)
    rows ← reads r (λ db. filter (λ (e : EntryRow D). e.transaction_id == id) db.entries)
    pure (map scan_entry rows)

  unfoldable pub get_transaction_header_for_update : Uuid → M D (Transaction D)
  unfolding query_header
  get_transaction_header_for_update = query_header in_tx

  unfoldable pub get_transaction_with_entries_for_update : Uuid → M D (Transaction D)
  unfolding query_header query_entries
  get_transaction_with_entries_for_update id = do
    txn ← query_header in_tx id
    entries ← query_entries in_tx id
    pure (record txn { entries = entries })

  abbrev pub hide_no_rows : Uuid → Error D → Error D
  hide_no_rows id no_rows = message "transaction not found" (env.to_string id)
  hide_no_rows id e = e

  unfoldable pub get_transaction_with_entries : Runner → Uuid → M D (Transaction D)
  unfolding query_header query_entries
  get_transaction_with_entries r id = do
    txn ← map_err (hide_no_rows id) (query_header r id)
    entries ← query_entries r id
    pure (record txn { entries = entries })

  unfoldable pub update_transaction_row : Uuid → (TransactionRow → TransactionRow) → M D ⊤
  update_transaction_row id f = do
    call env update_transaction
    write_tx (λ db. record db { transactions = update_rows id f db.transactions })

  unfoldable pub update_transaction_settled : Uuid → ℕ → M D ⊤
  unfolding update_transaction_row
  update_transaction_settled id settled_at = update_transaction_row id (settle_row settled_at)

  unfoldable pub update_transaction_cancelled : Uuid → M D ⊤
  unfolding update_transaction_row
  update_transaction_cancelled id = update_transaction_row id cancel_row

  unfoldable pub mark_original_transaction_reversed : Uuid → Uuid → M D ⊤
  unfolding update_transaction_row
  mark_original_transaction_reversed original reversal =
      update_transaction_row original (reverse_row reversal)
