-- ===== src/Processor.antt =====
-- internal/service/transaction: the requests, their conversions and the pure checks of the
-- transaction processor. Its operations are in the modules below.
pub mod Impacts
pub mod Net
pub mod Keys
pub mod Overdraft
pub mod Validate
pub mod Write
pub mod Settle
pub mod Cancel
pub mod Execute
pub mod Post
pub mod Reverse
pub mod Batch
pub mod Frames
pub mod Atomic
pub mod Retried
pub mod Batched
pub mod Negation
pub mod States
pub mod Accepts
pub mod Succeeds
pub mod Completes
pub mod Sums
pub mod Written
pub mod Conserved
pub mod Reversals
pub mod Eligible
pub mod Rows
pub mod Posted
pub mod Batches
pub mod Reachable
pub mod Refused
pub mod Replay
use Prim.Native.String.{◌++◌ as text_append}
use double_entry_ledger_engi.Base.{
  ℕ, ⊤, Bool, true, false, String, Option, none, some, List, [], ◌∷◌, map, Result, ok, err, Action,
  pure, raise, lift, same, if◌then◌else◌,
}
use double_entry_ledger_engi.Decimal.{Decimal}
use double_entry_ledger_engi.Domain.{
  EntryType, debit, credit, TransactionState, settled, Entry, Transaction, Metadata,
}
use double_entry_ledger_engi.Domain.Errors.{
  ValidationError, invalid_id, already_reversed, is_a_reversal, not_settled,
}
use double_entry_ledger_engi.Store.{Uuid, Env, Error, validation}
use double_entry_ledger_engi.Ledger.{LedgerEntryInput}

pub record EntryRequest (D : Type 0) : Type 0 where
  pub account_id : String
  pub currency_code : String
  pub amount : D
  pub entry_type : EntryType
  pub description : String

pub record PostTransactionRequest (D : Type 0) : Type 0 where
  pub idempotency_key : Option String
  pub state : TransactionState
  pub entries : List (EntryRequest D)
  pub metadata : Metadata

pub record ReversalRequest : Type 0 where
  pub idempotency_key : Option String
  pub state : TransactionState
  pub description : String
  pub metadata : Metadata

-- req.IdempotencyKey != nil && *req.IdempotencyKey != ""
abbrev pub used_key : Option String → Option String
used_key none = none
used_key (some key) = if same key "" then none else some key

-- The state decides whether a transaction carries the time of its settlement.
abbrev pub settled_time : TransactionState → ℕ → Option ℕ
settled_time settled posted_at = some posted_at
settled_time _ posted_at = none

abbrev pub is_settled : TransactionState → Bool
is_settled settled = true
is_settled _ = false

-- The other side of an entry; what is not a debit becomes one.
abbrev pub opposite : EntryType → EntryType
opposite debit = credit
opposite _ = debit

abbrev pub type_text : EntryType → String
type_text debit = "debit"
type_text credit = "credit"
type_text (EntryType.unknown s) = s

module _ {D : Type 0} where
  abbrev pub entry_of_request : EntryRequest D → Entry D
  entry_of_request e = record {
    entry_id = "";
    transaction_id = "";
    account_id = e.account_id;
    currency_code = e.currency_code;
    amount = e.amount;
    entry_type = e.entry_type;
    description = e.description;
    created_at = 0;
  }

  abbrev pub request_to_transaction : PostTransactionRequest D → Transaction D
  request_to_transaction req = record {
    transaction_id = "";
    idempotency_key = none;
    state = req.state;
    posted_at = 0;
    settled_at = none;
    reversed_by_transaction_id = none;
    reverses_transaction_id = none;
    entries = map entry_of_request req.entries;
    metadata = req.metadata;
  }

  abbrev pub input_of_request : EntryRequest D → LedgerEntryInput D
  input_of_request e = record {
    account_id = e.account_id;
    currency_code = e.currency_code;
    amount = e.amount;
    entry_type = e.entry_type;
    description = e.description;
  }

  abbrev pub entry_requests_to_ledger_inputs : List (EntryRequest D) → List (LedgerEntryInput D)
  entry_requests_to_ledger_inputs = map input_of_request

  abbrev pub posted_transaction :
      Env → PostTransactionRequest D → Uuid → ℕ → Option Uuid → List (Entry D) → Transaction D
  posted_transaction env req id posted_at reverses entries = record {
    transaction_id = env.to_string id;
    idempotency_key = req.idempotency_key;
    state = req.state;
    posted_at = posted_at;
    settled_at = settled_time req.state posted_at;
    reversed_by_transaction_id = none;
    reverses_transaction_id = elim reverses [ none ↦ none | some r ↦ some (env.to_string r) ];
    entries = entries;
    metadata = req.metadata;
  }

  unfoldable pub parse_uuid_field : Env → String → String → Result (Error D) Uuid
  parse_uuid_field env field value = elim (env.parse value) [
    | none ↦ err (validation (invalid_id field value))
    | some id ↦ ok id
  ]

  reversible : Transaction D → Option String → Option String → Result (Error D) ⊤
  reversible txn (some by) reverses = err (validation (already_reversed txn.transaction_id by))
  reversible txn none (some r) = err (validation (is_a_reversal txn.transaction_id))
  reversible txn none none =
      if is_settled txn.state
      then ok tt
      else err (validation (not_settled txn.transaction_id txn.state))

  unfoldable pub validate_reversal_eligibility : Transaction D → Result (Error D) ⊤
  unfolding reversible
  validate_reversal_eligibility txn =
      reversible txn txn.reversed_by_transaction_id txn.reverses_transaction_id

  abbrev pub reversal_description : String → Entry D → String
  reversal_description description e =
      if same description ""
      then text_append "Reversal of "
          (text_append (type_text e.entry_type) (text_append ": " e.description))
      else description

  abbrev pub reversal_entry : String → Entry D → EntryRequest D
  reversal_entry description e = record {
    account_id = e.account_id;
    currency_code = e.currency_code;
    amount = e.amount;
    entry_type = opposite e.entry_type;
    description = reversal_description description e;
  }

  unfoldable pub create_reversal_entries : List (Entry D) → String → List (EntryRequest D)
  create_reversal_entries [] description = []
  create_reversal_entries (e ∷ es) description =
      reversal_entry description e ∷ create_reversal_entries es description
