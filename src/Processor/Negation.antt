-- ===== src/Processor/Negation.antt =====
-- What a reversal of internal/service/transaction/processor_reverse.go writes: the negated original.
use double_entry_ledger_engi.Decimal.Group.{negate-nil, negate_negate, negate-plus}
use double_entry_ledger_engi.Domain.Validator.Balanced.{
  signed, signed_sum, validate_double_entry_balance_iff,
}
use double_entry_ledger_engi.Domain.Validator.{validate_double_entry_balance}
use double_entry_ledger_engi.Processor.{
  validate_reversal_eligibility, create_reversal_entries, entry_of_request, opposite, is_settled,
  reversal_entry,
}
use double_entry_ledger_engi.Domain.{
  Entry, Transaction, entry_type_is_valid, EntryType, debit, credit,
}
use double_entry_ledger_engi.Decimal.{Decimal, DecimalLaws}
use double_entry_ledger_engi.Base.{
  if◌then◌else◌, List, String, filter, map, All, Bool, same, ◌≡◌, ok, true, ◌&&◌, none, sym, ◌↔◌,
  arith, ◌∙◌, ◌∷◌, ap, ap₂, [], refl, false,
}

module _ {D : Type 0} where
  -- The entries of an account in a currency.
  abbrev pub of_key : String → String → List (Entry D) → List (Entry D)
  of_key account currency =
      filter (λ (e : Entry D). same e.account_id account && same e.currency_code currency)

  abbrev pub HasSide : Entry D → Type 0
  HasSide e = entry_type_is_valid e.entry_type ≡ true

  abbrev pub reversal_of : List (Entry D) → String → List (Entry D)
  reversal_of es description = map entry_of_request (create_reversal_entries es description)

  -- A transaction may be reversed exactly when it is settled, has not been reversed and is not itself
  -- a reversal.
  pub validate_reversal_eligibility_iff :
      (txn : Transaction D)
      → (validate_reversal_eligibility txn ≡ ok tt)
        ↔ (is_settled txn.state ≡ true)
          × (txn.reversed_by_transaction_id ≡ none)
          × (txn.reverses_transaction_id ≡ none)
  unfolding validate_reversal_eligibility
  validate_reversal_eligibility_iff txn = (λ h. ground arith, λ h. ground arith)

module _ {D : Type 0} ⦃dec : Decimal D⦄ (laws : DecimalLaws D dec) where
  open laws use {Number, value, nil, plus, negate, plus_assoc, plus_comm, plus-nil, plus-negate}

  signed-opposite :
      (t : EntryType) (a : D)
      → entry_type_is_valid t ≡ true
      → signed laws (opposite t) a ≡ negate (signed laws t a)
  unfolding entry_type_is_valid
  signed-opposite debit a h = sym (negate_negate laws _)
  signed-opposite credit a h = refl
  signed-opposite (EntryType.unknown s) a h = absurd (cc)

  if_signed :
      (b : Bool) (e f : Entry D) (es fs : List (Entry D))
      → signed laws f.entry_type f.amount ≡ negate (signed laws e.entry_type e.amount)
      → signed_sum laws fs ≡ negate (signed_sum laws es)
      → signed_sum laws (if b then f ∷ fs else fs)
        ≡ negate (signed_sum laws (if b then e ∷ es else es))
  if_signed true e f es fs h ih = ap₂ plus h ih ∙ sym (negate-plus laws _ _)
  if_signed false e f es fs h ih = ih

  -- For every account and currency, the entries of the reversal sum to the negation of what the
  -- original's sum to, when each entry of the original is a debit or a credit.
  pub create_reversal_entries-negate :
      (es : List (Entry D)) (description account currency : String)
      → All HasSide es
      → signed_sum laws (of_key account currency (reversal_of es description))
        ≡ negate (signed_sum laws (of_key account currency es))
  unfolding create_reversal_entries
  create_reversal_entries-negate [] description account currency h = sym (negate-nil laws)
  create_reversal_entries-negate (e ∷ es) description account currency h =
      if_signed (same e.account_id account && same e.currency_code currency) e
        (entry_of_request (reversal_entry description e)) _ _
        (signed-opposite e.entry_type e.amount h.0)
        (create_reversal_entries-negate es description account currency h.1)

  sum-reversal :
      (es : List (Entry D)) (description : String)
      → All HasSide es
      → signed_sum laws (reversal_of es description) ≡ negate (signed_sum laws es)
  unfolding create_reversal_entries
  sum-reversal [] description h = sym (negate-nil laws)
  sum-reversal (e ∷ es) description h =
      ap₂ plus (signed-opposite e.entry_type e.amount h.0) (sum-reversal es description h.1)
      ∙ sym (negate-plus laws _ _)

  -- The entries of a reversal pass the balance test when those of the original do and each of these
  -- is a debit or a credit.
  pub reversal-balance :
      (es : List (Entry D)) (description : String)
      → All HasSide es
      → validate_double_entry_balance es ≡ none
      → validate_double_entry_balance (reversal_of es description) ≡ none
  reversal-balance es description h b =
      (validate_double_entry_balance_iff laws (reversal_of es description)).1 (
        sum-reversal es description h
        ∙ ap negate ((validate_double_entry_balance_iff laws es).0 b)
        ∙ negate-nil laws)
