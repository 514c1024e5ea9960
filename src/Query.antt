-- ===== src/Query.antt =====
-- internal/service/query: reading one transaction, lists of transactions page by page, and the
-- statement of an account; and FetchEntriesByTransactionIDs of ledger_repository.go, which these
-- call. The sum of the offset and the number of rows stays far below 2 ^ 63, since a page has rows
-- only where the offset is below the count of rows.
mod Rows
pub mod Pages
pub mod Listed
pub mod Paged
pub mod Order
pub mod Meets
pub mod Filtered
unfoldable pub use Rows.*
use double_entry_ledger_engi.Decimal.{Decimal}
use double_entry_ledger_engi.Ledger.{
  invalid_text, get_transaction_with_entries, scan_transaction, scan_entry,
}
use double_entry_ledger_engi.Domain.{Entry, Transaction}
use double_entry_ledger_engi.Store.{
  Env, M, Runner, Uuid, Db, TransactionRow, message, wrapped, driver, pg_error, wrap, call, pool,
  select_count, select_entries, reads, EntryRow, select_page,
}
use double_entry_ledger_engi.Base.{
  String, ℤ, Bool, List, Option, ℕ, negsuc, pure, raise, same, some, none, pos, ◌∷◌, if◌then◌else◌,
  ◌==◌, ltb, ◌>>=◌, ◌>>◌, true, ◌+◌, [], length, filter, any, window, map,
}

-- `if limit <= 0 { limit = 100 }; if limit > 1000 { limit = 1000 }`
unfoldable pub page_limit : ℤ → ℕ
page_limit (negsuc n) = 100
page_limit (pos n) = if n == 0 then 100 else if ltb 1000 n then 1000 else n

-- `if offset < 0 { offset = 0 }`
unfoldable pub page_offset : ℤ → ℕ
page_offset (negsuc n) = 0
page_offset (pos n) = n

-- The empty order is "timestamp_desc", and any other text but "timestamp_asc" counts as that.
unfoldable pub is_ascending : String → Bool
is_ascending order_by = same order_by "timestamp_asc"

-- `txnUUID, _ := uuid.Parse(...)`: the zero UUID on failure
abbrev pub id_or_nil : Option Uuid → Uuid
id_or_nil none = 0
id_or_nil (some id) = id

module _ {D : Type 0} ⦃dec : Decimal D⦄ (env : Env) where
  -- FetchEntriesByTransactionIDs: the map from each id to its entries, empty where an id has none.
  -- The entries of one transaction were inserted at one `created_at`.
  unfoldable pub fetch_entries_by_transaction_ids : Runner → List Uuid → M D (Uuid → List (Entry D))
  fetch_entries_by_transaction_ids r [] = pure (λ id. [])
  fetch_entries_by_transaction_ids r (first ∷ ids) = do
    wrap "failed to query entries for transactions" (call env select_entries)
    rows ← reads r (λ db.
        filter (λ (e : EntryRow D). any (λ id. e.transaction_id == id) (first ∷ ids)) db.entries)
    pure (λ id. map (scan_entry env) (filter (λ (e : EntryRow D). e.transaction_id == id) rows))

  abbrev pub parse_id : Option Uuid → M D Uuid
  parse_id none = raise (wrapped "failed to parse transaction ID" (message "invalid UUID" ""))
  parse_id (some id) = pure id

  -- The loop over the rows, with the ids of the transactions.
  unfoldable pub scan_rows : List TransactionRow → M D (List (Transaction D) × List Uuid)
  scan_rows [] = pure ([], [])
  scan_rows (row ∷ rows) = do
    let txn : Transaction D = scan_transaction env row
    id ← parse_id (env.parse txn.transaction_id)
    rest ← scan_rows rows
    pure (txn ∷ rest.0, id ∷ rest.1)

  abbrev pub attach : (Uuid → List (Entry D)) → Transaction D → Transaction D
  attach entries txn = record txn { entries = entries (id_or_nil (env.parse txn.transaction_id)) }

  -- The second query, its loop, and the entries of what it has found. `count_text` and `rows_text`
  -- are what the two callers say of a failure.
  unfoldable pub read_page :
      String
      → String
      → Bool
      → (Db D → TransactionRow → Bool)
      → ℕ
      → ℕ
      → M D (List (Transaction D) × ℕ)
  unfolding scan_rows fetch_entries_by_transaction_ids
  read_page count_text rows_text ascending where_clause limit offset = do
    wrap count_text (call env select_count)
    total ← reads pool (λ db. length (filter (where_clause db) db.transactions))
    wrap rows_text (call env select_page)
    rows ←
        reads pool
          (λ db. window offset limit (ordered ascending (filter (where_clause db) db.transactions)))
    found ← scan_rows rows
    entries ← fetch_entries_by_transaction_ids pool found.1
    pure (map (attach entries) found.0, total)

  -- The account's text becomes a UUID in the statement.
  abbrev pub account_argument : Option String → M D (Option Uuid)
  account_argument none = pure none
  account_argument (some account) = elim (env.parse account) [
    | none ↦ raise (wrapped "failed to count transactions" (driver (pg_error invalid_text)))
    | some id ↦ pure (some id)
  ]

  unfoldable pub list_transactions : TransactionFilter → M D (TransactionPage D)
  unfolding read_page
  list_transactions filter = do
    account ← account_argument filter.account_id
    page ←
        read_page "failed to count transactions" "failed to query transactions"
          (is_ascending filter.order_by) (λ db. selects db filter account) (page_limit filter.limit)
          (page_offset filter.offset)
    pure (record {
      transactions = page.0;
      total_count = page.1;
      limit = page_limit filter.limit;
      offset = page_offset filter.offset;
      has_more = ltb (page_offset filter.offset + length page.0) page.1;
    })

  abbrev pub statement_account : String → Option Uuid → M D Uuid
  statement_account account none = raise (message "invalid account ID format" account)
  statement_account account (some id) = pure id

  abbrev pub statement_of : String → StatementFilter → List (Transaction D) × ℕ → Statement D
  statement_of account filter page = record {
    account_id = account;
    currency = filter.currency;
    transactions = page.0;
    total_count = page.1;
    limit = page_limit filter.limit;
    offset = page_offset filter.offset;
    has_more = ltb (page_offset filter.offset + length page.0) page.1;
  }

  unfoldable pub statement_page : StatementFilter → Uuid → M D (List (Transaction D) × ℕ)
  unfolding read_page
  statement_page filter id =
      read_page "failed to count account transactions" "failed to query account transactions" true
        (λ db. states db filter id) (page_limit filter.limit) (page_offset filter.offset)

  unfoldable pub get_account_statement : String → StatementFilter → M D (Statement D)
  unfolding statement_page
  get_account_statement account filter = do
    id ← statement_account account (env.parse account)
    page ← statement_page filter id
    pure (statement_of account filter page)

  abbrev transaction_argument : String → Option Uuid → M D Uuid
  transaction_argument id none = raise (message "invalid transaction ID format" id)
  transaction_argument text (some id) = pure id

  -- GetTransaction and GetTransactionByUUID
  unfoldable pub get_transaction : String → M D (Transaction D)
  get_transaction text = do
    id ← transaction_argument text (env.parse text)
    get_transaction_with_entries env pool id
