-- ===== src/Domain/Validator/Complete.antt =====
-- internal/domain/validator.go against what a transaction must satisfy, field by field.
use mathlib.Core.List.{Memᴰ}
use double_entry_ledger_engi.Base.{
  ℕ, suc, ◌+◌, ◌^◌, ◌≤◌, ◌≡◌, refl, sym, ◌≢◌, ◌⊎◌, inl, inr, ◌↔◌, true, false, none, some, List, [],
  ◌∷◌, arith, String, len, All, Bool-cases, same, same_iff, is_empty, subst,
}
use double_entry_ledger_engi.Decimal.{Decimal, DecimalLaws, Exponent, nonneg, below}
use double_entry_ledger_engi.Domain.{
  EntryType, debit, credit, entry_type_is_valid, state_is_valid, Metadata, Entry, Transaction,
  TransactionState, pending, settled, cancelled,
}
use double_entry_ledger_engi.Domain.Currency.{is_valid, listed}
use double_entry_ledger_engi.Domain.Validator.{
  TransactionValidator, validate_entry, validate_entries, validate_entries_from, validate_metadata,
  validate_pairs, validate_transaction, decimal_places_exceed,
}
use double_entry_ledger_engi.Domain.Validator.Balanced.{
  signed_sum, validate_double_entry_balance_iff,
}

pub listed_iff :
    (supported : List String) (code : String) → (listed supported code ≡ true) ↔ Memᴰ code supported
unfolding listed
listed_iff supported code = (to supported, from supported)
  where
    to : (l : List String) → listed l code ≡ true → Memᴰ code l
    to [] h = cc
    to (s ∷ l) h = elim (Bool-cases (same s code)) [
      | inl e ↦ Memᴰ.head (sym ((same_iff s code).0 e))
      | inr e ↦ Memᴰ.tail (to l (rw e at h))
    ]

    from : (l : List String) → Memᴰ code l → listed l code ≡ true
    from [] m = elim m [ ]
    from (s ∷ l) (Memᴰ.head e) = rw ((same_iff s code).1 (sym e))
    from (s ∷ l) (Memᴰ.tail m) = ground (arith, from l m)

-- At most `limit` digits behind the point; an exponent of -2 ^ 31 is let through as well.
abbrev pub FitsPlaces : ℕ → Exponent → Type 0
FitsPlaces limit (nonneg n) = Unit
FitsPlaces limit (below n) = (n + 1 ≤ limit) ⊎ (2 ^ 31 ≤ n + 1)

FitsPlaces-iff :
    (limit : ℕ) (x : Exponent) → (decimal_places_exceed limit x ≡ false) ↔ FitsPlaces limit x
unfolding decimal_places_exceed
FitsPlaces-iff limit (nonneg n) = ((λ _. tt), (λ _. refl))
FitsPlaces-iff limit (below n) = ground arith

typed_iff : (t : EntryType) → (entry_type_is_valid t ≡ true) ↔ ((t ≡ debit) ⊎ (t ≡ credit))
unfolding entry_type_is_valid
typed_iff debit = ground arith
typed_iff credit = ground arith
typed_iff (EntryType.unknown s) = ground arith

state_iff :
    (s : TransactionState)
    → (state_is_valid s ≡ true) ↔ ((s ≡ pending) ⊎ (s ≡ settled) ⊎ (s ≡ cancelled))
unfolding state_is_valid
state_iff pending = ground arith
state_iff settled = ground arith
state_iff cancelled = ground arith
state_iff (TransactionState.unknown s) = ground arith

is_empty_iff : {A : Type 0} (l : List A) → (is_empty l ≡ true) ↔ (l ≡ [])
is_empty_iff [] = ground arith
is_empty_iff (x ∷ l) = ground arith

valid_ne_empty : (c : String) → is_valid c ≡ true → c ≢ ""
unfolding is_valid
valid_ne_empty c h e = cc (subst (λ x. is_valid x ≡ true) e h)

module _ {D : Type 0} ⦃dec : Decimal D⦄ (laws : DecimalLaws D dec) where
  open laws use {value, nil, Nonneg, nonneg_iff}

  -- What an entry must be.
  pub record IsValidEntry (v : TransactionValidator) (e : Entry D) : Type 0 where
    pub has_account : e.account_id ≢ ""
    pub code_format : is_valid e.currency_code ≡ true
    pub supported : Memᴰ e.currency_code v.supported_currencies
    pub typed : (e.entry_type ≡ debit) ⊎ (e.entry_type ≡ credit)
    pub amount_nonneg : Nonneg (value e.amount)
    pub precise : FitsPlaces v.max_decimal_places (dec.exponent e.amount)

  validate_entry_iff :
      (v : TransactionValidator) (e : Entry D) (i : ℕ)
      → (validate_entry v e i ≡ none) ↔ IsValidEntry v e
  unfolding validate_entry
  validate_entry_iff v e i = (
    (λ h. record {
      has_account = λ q. ground (arith, same_iff e.account_id "");
      code_format = ground arith;
      supported = (listed_iff v.supported_currencies e.currency_code).0 (ground arith);
      typed = (typed_iff e.entry_type).0 (ground arith);
      amount_nonneg = (nonneg_iff e.amount).0 (ground arith);
      precise = (FitsPlaces-iff v.max_decimal_places (dec.exponent e.amount)).0 (ground arith);
    }),
    (λ w. ground (
      arith,
      same_iff e.account_id "",
      same_iff e.currency_code "",
      valid_ne_empty e.currency_code w.code_format,
      (listed_iff v.supported_currencies e.currency_code).1 w.supported,
      (typed_iff e.entry_type).1 w.typed,
      (nonneg_iff e.amount).1 w.amount_nonneg,
      (FitsPlaces-iff v.max_decimal_places (dec.exponent e.amount)).1 w.precise,
    )),
  )

  validate_entries_from_iff :
      (v : TransactionValidator) (i : ℕ) (es : List (Entry D))
      → (validate_entries_from v i es ≡ none) ↔ All (IsValidEntry v) es
  unfolding validate_entries_from
  validate_entries_from_iff v i [] = ((λ _. tt), (λ _. refl))
  validate_entries_from_iff v i (e ∷ es) =
      let (to, from) = validate_entry_iff v e i in
      let (tos, froms) = validate_entries_from_iff v (suc i) es in
      ((λ h. (to (ground arith), tos (ground arith))), (λ w. rw (from w.0) (froms w.1)))

  -- Keys and printed values of metadata are bounded in bytes.
  abbrev pub FitsMetadata : TransactionValidator → Metadata → Type 0
  FitsMetadata v none = Unit
  FitsMetadata v (some pairs) =
      All (λ p. (len p.0 ≤ v.max_metadata_key_size) × (len p.1 ≤ v.max_metadata_value_size)) pairs

  validate_pairs_iff :
      (v : TransactionValidator) (m : List (String × String))
      → (validate_pairs {D = D} v m ≡ none) ↔ FitsMetadata v (some m)
  unfolding validate_pairs
  validate_pairs_iff v [] = ((λ _. tt), (λ _. refl))
  validate_pairs_iff v ((k, x) ∷ m) =
      let (to, from) = validate_pairs_iff v m in
      ((λ h. ((ground arith, ground arith), to (ground arith))), (λ w. ground (arith, from w.1)))

  validate_metadata_iff :
      (v : TransactionValidator) (m : Metadata)
      → (validate_metadata {D = D} v m ≡ none) ↔ FitsMetadata v m
  unfolding validate_metadata
  validate_metadata_iff v none = ((λ _. tt), (λ _. refl))
  validate_metadata_iff v (some m) = validate_pairs_iff v m

  pub record IsPostable (v : TransactionValidator) (t : Transaction D) : Type 0 where
    pub has_entries : t.entries ≢ []
    pub known_state : (t.state ≡ pending) ⊎ (t.state ≡ settled) ⊎ (t.state ≡ cancelled)
    pub valid_entries : All (IsValidEntry v) t.entries
    pub balanced : signed_sum laws t.entries ≡ nil
    pub bounded : FitsMetadata v t.metadata

  -- A transaction passes validation exactly when it has entries, a known state, only valid entries,
  -- signed amounts that sum to nothing, and metadata within its bounds.
  pub validate_transaction_iff :
      (v : TransactionValidator) (t : Transaction D)
      → (validate_transaction v t ≡ none) ↔ IsPostable v t
  unfolding validate_transaction validate_entries
  validate_transaction_iff v t =
      let (to, from) = validate_entries_from_iff v 0 t.entries in
      let (tob, fromb) = validate_double_entry_balance_iff laws t.entries in
      let (tom, fromm) = validate_metadata_iff v t.metadata in
      (
        (λ h. record {
          has_entries = λ q. ground arith;
          known_state = (state_iff t.state).0 (ground arith);
          valid_entries = to (ground arith);
          balanced = tob (ground arith);
          bounded = tom (ground arith);
        }),
        (λ w. ground (
          arith,
          is_empty_iff t.entries,
          (state_iff t.state).1 w.known_state,
          from w.valid_entries,
          fromb w.balanced,
          fromm w.bounded,
        )),
      )
