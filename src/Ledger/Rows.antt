-- ===== src/Ledger/Rows.antt =====
-- The rows of the ledger tables and what the statements of ledger_repository.go do to one row.
use double_entry_ledger_engi.Base.{
  ℕ, Bool, false, String, Option, none, some, List, [], ◌∷◌, ◌||◌, ◌==◌, same, if◌then◌else◌,
}
use double_entry_ledger_engi.Domain.{EntryType, TransactionState, settled, cancelled, Metadata}
use double_entry_ledger_engi.Store.{Uuid, TransactionRow}

-- repository.LedgerEntryInput
pub record LedgerEntryInput (D : Type 0) : Type 0 where
  pub account_id : String
  pub currency_code : String
  pub amount : D
  pub entry_type : EntryType
  pub description : String

-- WHERE transaction_id = $1
abbrev pub has_id : Uuid → TransactionRow → Bool
has_id id row = row.transaction_id == id

abbrev same_key : Option String → Option String → Bool
same_key (some k) (some j) = same k j
same_key _ _ = false

-- The primary key and UNIQUE (idempotency_key), in which NULLs differ.
abbrev pub clashes : Uuid → Option String → TransactionRow → Bool
clashes id key row = has_id id row || same_key key row.idempotency_key

-- UPDATE transactions SET ... WHERE transaction_id = $n
abbrev pub update_rows :
    Uuid → (TransactionRow → TransactionRow) → List TransactionRow → List TransactionRow
update_rows id f [] = []
update_rows id f (row ∷ rows) = (if has_id id row then f row else row) ∷ update_rows id f rows

-- SQLSTATE codes.
abbrev pub unique_violation : String
unique_violation = "23505"

abbrev pub foreign_key_violation : String
foreign_key_violation = "23503"

abbrev pub check_violation : String
check_violation = "23514"

abbrev pub invalid_text : String
invalid_text = "22P02"

abbrev pub new_row :
    Uuid → Option String → TransactionState → ℕ → Option ℕ → Option Uuid → Metadata → TransactionRow
new_row id key state posted_at settled_at reverses metadata = record {
  transaction_id = id;
  idempotency_key = key;
  state = state;
  posted_at = posted_at;
  settled_at = settled_at;
  reversed_by = none;
  reverses = reverses;
  metadata = metadata;
}

abbrev pub settle_row : ℕ → TransactionRow → TransactionRow
settle_row settled_at row = record row { state = settled; settled_at = some settled_at }

abbrev pub cancel_row : TransactionRow → TransactionRow
cancel_row row = record row { state = cancelled }

abbrev pub reverse_row : Uuid → TransactionRow → TransactionRow
reverse_row reversal row = record row { reversed_by = some reversal }
