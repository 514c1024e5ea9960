-- ===== src/Domain.antt =====
-- internal/domain: the types of the ledger. A Go string type with constants is a data type with a
-- constructor for each constant and `unknown` for every other text.
pub mod Currency
pub mod Errors
pub mod Validator
use double_entry_ledger_engi.Base.{ℕ, Bool, true, false, Option, List, String}

pub data AccountType : Type 0 where
  asset liability equity revenue expense : AccountType
  unknown : String → AccountType

unfoldable pub account_type_is_valid : AccountType → Bool
account_type_is_valid (AccountType.unknown s) = false
account_type_is_valid _ = true

pub data EntryType : Type 0 where
  debit credit : EntryType
  unknown : String → EntryType

unfoldable pub entry_type_is_valid : EntryType → Bool
entry_type_is_valid credit = true
entry_type_is_valid debit = true
entry_type_is_valid (EntryType.unknown s) = false

pub data TransactionState : Type 0 where
  pending settled cancelled : TransactionState
  unknown : String → TransactionState

unfoldable pub state_is_valid : TransactionState → Bool
state_is_valid pending = true
state_is_valid settled = true
state_is_valid cancelled = true
state_is_valid (TransactionState.unknown s) = false

-- A `map[string]interface{}` in the order in which a loop over it meets the keys; of a value the
-- code reads only the text that `%v` prints. `none` is the nil map.
abbrev pub Metadata : Type 0
Metadata = Option (List (String × String))

pub record Entry (D : Type 0) : Type 0 where
  pub entry_id : String
  pub transaction_id : String
  pub account_id : String
  pub currency_code : String
  pub amount : D
  pub entry_type : EntryType
  pub description : String
  pub created_at : ℕ

-- Instants are numbers of microseconds, the resolution of the database.
pub record Transaction (D : Type 0) : Type 0 where
  pub transaction_id : String
  pub idempotency_key : Option String
  pub state : TransactionState
  pub posted_at : ℕ
  pub settled_at : Option ℕ
  pub reversed_by_transaction_id : Option String
  pub reverses_transaction_id : Option String
  pub entries : List (Entry D)
  pub metadata : Metadata

pub record AccountCurrency : Type 0 where
  pub currency_code : String
  pub allow_negative : Bool
  pub created_at : ℕ

pub record Balance (D : Type 0) : Type 0 where
  pub account_id : String
  pub currency : String
  pub settled_balance : D
  pub pending_debits : D
  pub pending_credits : D
  pub available_balance : D
  pub entry_count : ℕ
  pub as_of_timestamp : ℕ
