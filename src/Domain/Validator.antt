-- ===== src/Domain/Validator.antt =====
-- internal/domain/validator.go
pub mod Balanced
pub mod Complete
use double_entry_ledger_engi.Base.{
  ℕ, suc, ◌+◌, ◌^◌, Bool, true, false, not, ◌&&◌, String, len, Option, none, some, List, [], ◌∷◌,
  ltb, same, if◌then◌else◌, is_empty,
}
use double_entry_ledger_engi.Decimal.{Decimal, Exponent, nonneg, below}
use double_entry_ledger_engi.Domain.{
  EntryType, debit, credit, entry_type_is_valid, state_is_valid, Metadata, Entry, Transaction,
}
use double_entry_ledger_engi.Domain.Currency.{
  CurrencyError, invalid_format, unsupported, is_valid, listed,
}
use double_entry_ledger_engi.Domain.Errors.{
  ValidationError, no_entries, invalid_state, account_id_required, currency_code_required,
  bad_currency, invalid_entry_type, negative_amount, too_precise, not_balanced,
  metadata_key_too_long, metadata_value_too_long,
}

-- The keys of the map `supportedCurrencies`, all of which map to true.
pub record TransactionValidator : Type 0 where
  pub supported_currencies : List String
  pub max_decimal_places : ℕ
  pub max_metadata_key_size : ℕ
  pub max_metadata_value_size : ℕ

unfoldable pub new_validator : List String → TransactionValidator
new_validator supported = record {
  supported_currencies = supported;
  max_decimal_places = 8;
  max_metadata_key_size = 100;
  max_metadata_value_size = 1000;
}

-- The first of two checks that fails.
infixr 36 ◌then_check◌
abbrev pub ◌then_check◌ : {E : Type 0} → Option E → Option E → Option E
some e then_check r = some e
none then_check r = r

abbrev pub fail_if : {E : Type 0} → Bool → E → Option E
fail_if b e = if b then some e else none

validate_currency_code : TransactionValidator → String → Option CurrencyError
validate_currency_code v code =
    if is_valid code
    then fail_if (not (listed v.supported_currencies code)) (unsupported code)
    else some (invalid_format code)

-- `-exponent` is an int32: the negation of the least int32 is itself, and passes as negative.
decimal_places_exceed : ℕ → Exponent → Bool
decimal_places_exceed limit (nonneg n) = false
decimal_places_exceed limit (below n) = ltb limit (n + 1) && ltb (n + 1) (2 ^ 31)

abbrev places : Exponent → ℕ
places (nonneg n) = 0
places (below n) = n + 1

module _ {D : Type 0} ⦃dec : Decimal D⦄ where
  validate_precision : TransactionValidator → D → ℕ → Option (ValidationError D)
  unfolding decimal_places_exceed
  validate_precision v amount index =
      fail_if (decimal_places_exceed v.max_decimal_places (dec.exponent amount))
        (too_precise index (places (dec.exponent amount)))

  abbrev currency_check : ℕ → Option CurrencyError → Option (ValidationError D)
  currency_check index none = none
  currency_check index (some e) = some (bad_currency index e)

  unfoldable pub validate_entry : TransactionValidator → Entry D → ℕ → Option (ValidationError D)
  unfolding validate_currency_code validate_precision
  validate_entry v entry index =
      fail_if (same entry.account_id "") (account_id_required index)
      then_check fail_if (same entry.currency_code "") (currency_code_required index)
      then_check currency_check index (validate_currency_code v entry.currency_code)
      then_check fail_if (not (entry_type_is_valid entry.entry_type))
          (invalid_entry_type index entry.entry_type)
      then_check fail_if (dec.is_negative entry.amount) (negative_amount index)
      then_check validate_precision v entry.amount index

  -- The loop of `validateEntries` from an index on.
  validate_entries_from : TransactionValidator → ℕ → List (Entry D) → Option (ValidationError D)
  validate_entries_from v i [] = none
  validate_entries_from v i (entry ∷ entries) =
      validate_entry v entry i then_check validate_entries_from v (suc i) entries

  unfoldable pub validate_entries :
      TransactionValidator → List (Entry D) → Option (ValidationError D)
  unfolding validate_entries_from
  validate_entries v entries =
      fail_if (is_empty entries) no_entries then_check validate_entries_from v 0 entries

  -- The two sums of the loop in `validateDoubleEntryBalance`.
  total_by_type : EntryType → D × D → D → D × D
  total_by_type debit (debits, credits) amount = (dec.add debits amount, credits)
  total_by_type credit (debits, credits) amount = (debits, dec.add credits amount)
  total_by_type (EntryType.unknown _) sums amount = sums

  totals : D × D → List (Entry D) → D × D
  totals sums [] = sums
  totals sums (e ∷ entries) = totals (total_by_type e.entry_type sums e.amount) entries

  unfoldable pub validate_double_entry_balance : List (Entry D) → Option (ValidationError D)
  unfolding totals total_by_type
  validate_double_entry_balance entries =
      let (debits, credits) = totals (dec.zero, dec.zero) entries in
      fail_if (not (dec.equal debits credits)) (not_balanced debits credits)

  validate_pairs : TransactionValidator → List (String × String) → Option (ValidationError D)
  validate_pairs v [] = none
  validate_pairs v ((key, value) ∷ rest) =
      fail_if (ltb v.max_metadata_key_size (len key)) (metadata_key_too_long key)
      then_check fail_if (ltb v.max_metadata_value_size (len value)) (metadata_value_too_long key)
      then_check validate_pairs v rest

  unfoldable pub validate_metadata : TransactionValidator → Metadata → Option (ValidationError D)
  unfolding validate_pairs
  validate_metadata v none = none
  validate_metadata v (some pairs) = validate_pairs v pairs

  validate_required_fields : Transaction D → Option (ValidationError D)
  validate_required_fields txn =
      fail_if (is_empty txn.entries) no_entries
      then_check fail_if (not (state_is_valid txn.state)) (invalid_state txn.state)

  unfoldable pub validate_transaction :
      TransactionValidator → Transaction D → Option (ValidationError D)
  unfolding validate_required_fields
  validate_transaction v txn =
      validate_required_fields txn
      then_check validate_entries v txn.entries
      then_check validate_double_entry_balance txn.entries
      then_check validate_metadata v txn.metadata
