-- ===== src/Query/Rows.antt =====
-- The types of internal/service/query/query_types.go, and the rows that its SQL selects: WHERE,
-- SELECT DISTINCT and ORDER BY posted_at. The order leaves rows of one posted_at open; here they
-- stay in the order of the table.
use double_entry_ledger_engi.Store.{Db, TransactionRow, Uuid, EntryRow}
use double_entry_ledger_engi.Base.{
  Bool, List, Option, String, false, none, true, ℕ, any, leb, some, ◌&&◌, ◌∷◌, [], if◌then◌else◌,
  same, ℤ, ◌==◌,
}
use double_entry_ledger_engi.Domain.{
  Metadata, TransactionState, Transaction, pending, settled, cancelled,
}

pub record TransactionFilter : Type 0 where
  pub account_id : Option String
  pub currency : Option String
  pub state : Option TransactionState
  pub start_date : Option ℕ
  pub end_date : Option ℕ
  -- the map in the order in which the loop over it meets the keys
  pub metadata : List (String × String)
  pub limit : ℤ
  pub offset : ℤ
  pub order_by : String

pub record StatementFilter : Type 0 where
  pub currency : Option String
  pub start_date : Option ℕ
  pub end_date : Option ℕ
  pub limit : ℤ
  pub offset : ℤ

pub record TransactionPage (D : Type 0) : Type 0 where
  pub transactions : List (Transaction D)
  pub total_count : ℕ
  pub limit : ℕ
  pub offset : ℕ
  pub has_more : Bool

pub record Statement (D : Type 0) : Type 0 where
  pub account_id : String
  pub currency : Option String
  pub transactions : List (Transaction D)
  pub total_count : ℕ
  pub limit : ℕ
  pub offset : ℕ
  pub has_more : Bool

-- The text of a state in the column.
abbrev pub state_text : TransactionState → String
state_text pending = "pending"
state_text settled = "settled"
state_text cancelled = "cancelled"
state_text (TransactionState.unknown s) = s

-- A condition that is left out when its filter is nil.
abbrev pub unless_nil : {A : Type 0} → Option A → (A → Bool) → Bool
unless_nil none p = true
unless_nil (some a) p = p a

-- t.metadata ->> key, of a map from keys to the texts that ->> gives of their JSON values
abbrev pub value_at : String → List (String × String) → Option String
value_at key [] = none
value_at key ((k, v) ∷ pairs) = if same k key then some v else value_at key pairs

abbrev is_value : String → Option String → Bool
is_value value none = false
is_value value (some v) = same v value

abbrev pub has_metadata : Metadata → String × String → Bool
has_metadata none (key, value) = false
has_metadata (some pairs) (key, value) = is_value value (value_at key pairs)

abbrev pub all : {A : Type 0} → (A → Bool) → List A → Bool
all p [] = true
all p (x ∷ xs) = p x && all p xs

-- posted_at >= start_date AND posted_at <= end_date
abbrev pub in_dates : Option ℕ → Option ℕ → TransactionRow → Bool
in_dates start end row =
    unless_nil start (λ time. leb time row.posted_at)
    && unless_nil end (λ time. leb row.posted_at time)

module _ {D : Type 0} where
  -- The conditions on the joined entry hold of one entry of the transaction.
  abbrev pub has_entry : Db D → Option Uuid → Option String → TransactionRow → Bool
  has_entry db account currency row =
      any
        (λ (e : EntryRow D).
          e.transaction_id == row.transaction_id
          && (unless_nil account (λ id. e.account_id == id)
              && unless_nil currency (λ code. same e.currency_code code)))
        db.entries

  -- The INNER JOIN stands only where the account or the currency is given.
  abbrev pub joins : Db D → Option Uuid → Option String → TransactionRow → Bool
  joins db none none row = true
  joins db account currency row = has_entry db account currency row

  -- The WHERE clause of ListTransactions.
  unfoldable pub selects : Db D → TransactionFilter → Option Uuid → TransactionRow → Bool
  selects db filter account row =
      joins db account filter.currency row
      && unless_nil filter.state (λ s. same (state_text row.state) (state_text s))
      && in_dates filter.start_date filter.end_date row
      && all (has_metadata row.metadata) filter.metadata

  -- The WHERE clause of GetAccountStatement.
  unfoldable pub states : Db D → StatementFilter → Uuid → TransactionRow → Bool
  states db filter account row =
      has_entry db (some account) filter.currency row
      && in_dates filter.start_date filter.end_date row

-- May row `a` stand before row `b`?
abbrev pub precedes : (ascending : Bool) → TransactionRow → TransactionRow → Bool
precedes true a b = leb a.posted_at b.posted_at
precedes false a b = leb b.posted_at a.posted_at

unfoldable pub insert_ordered : Bool → TransactionRow → List TransactionRow → List TransactionRow
insert_ordered ascending r [] = r ∷ []
insert_ordered ascending r (s ∷ rows) =
    if precedes ascending r s then r ∷ s ∷ rows else s ∷ insert_ordered ascending r rows

-- ORDER BY t.posted_at ASC, or DESC
unfoldable pub ordered : Bool → List TransactionRow → List TransactionRow
unfolding insert_ordered
ordered ascending [] = []
ordered ascending (r ∷ rows) = insert_ordered ascending r (ordered ascending rows)
