-- ===== src/Domain/Errors.antt =====
-- domain.ValidationError: a constructor for each place that returns one, with what its field and
-- message name.
use double_entry_ledger_engi.Base.{ℕ, String}
use double_entry_ledger_engi.Domain.{EntryType, TransactionState}
use double_entry_ledger_engi.Domain.Currency.{CurrencyError}

pub data ValidationError (D : Type 0) : Type 0 where
  -- internal/domain/validator.go; the number is the entry's index
  no_entries : ValidationError D
  invalid_state : TransactionState → ValidationError D
  account_id_required : ℕ → ValidationError D
  currency_code_required : ℕ → ValidationError D
  bad_currency : ℕ → CurrencyError → ValidationError D
  invalid_entry_type : ℕ → EntryType → ValidationError D
  negative_amount : ℕ → ValidationError D
  too_precise : ℕ → ℕ → ValidationError D
  not_balanced : D → D → ValidationError D
  metadata_key_too_long : String → ValidationError D
  metadata_value_too_long : String → ValidationError D
  -- internal/service/transaction
  invalid_id : String → String → ValidationError D
  invalid_account_id : String → ValidationError D
  account_not_found : String → ValidationError D
  currency_not_supported : String → String → ValidationError D
  original_not_found : ℕ → ValidationError D
  transaction_not_found : ℕ → ValidationError D
  not_pending : ℕ → TransactionState → ValidationError D
  already_reversed : String → String → ValidationError D
  is_a_reversal : String → ValidationError D
  not_settled : String → TransactionState → ValidationError D
  empty_batch : ValidationError D
  batch_too_large : ℕ → ValidationError D
  key_exists : ℕ → String → ℕ → ValidationError D
