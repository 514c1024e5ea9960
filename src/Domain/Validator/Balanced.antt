-- ===== src/Domain/Validator/Balanced.antt =====
-- The balance test of internal/domain/validator.go against the sum of signed amounts.
use double_entry_ledger_engi.Base.{
  ◌≡◌, sym, ap, ◌∙◌, ◌↔◌, none, List, [], ◌∷◌, Bool-cases, inl, inr,
}
use double_entry_ledger_engi.Decimal.{Decimal, DecimalLaws}
use double_entry_ledger_engi.Decimal.Group.{
  nil-plus, negate-plus, eq_of_difference, difference_of_eq,
}
use double_entry_ledger_engi.Domain.{EntryType, debit, credit, Entry}
use double_entry_ledger_engi.Domain.Validator.{total_by_type, totals, validate_double_entry_balance}

module _ {D : Type 0} ⦃dec : Decimal D⦄ (laws : DecimalLaws D dec) where
  open laws use {
    Number, value, nil, plus, negate, plus_assoc, plus_comm, plus-nil, plus-negate, value-add,
    equal_iff,
  }

  -- What an entry adds to the balance of its account.
  abbrev pub signed : EntryType → D → Number
  signed credit a = value a
  signed debit a = negate (value a)
  signed (EntryType.unknown _) a = nil

  abbrev pub signed_sum : List (Entry D) → Number
  signed_sum [] = nil
  signed_sum (e ∷ es) = plus (signed e.entry_type e.amount) (signed_sum es)

  abbrev difference : D × D → Number
  difference s = plus (value s.1) (negate (value s.0))

  difference-total_by_type :
      (t : EntryType) (s : D × D) (a : D)
      → difference (total_by_type t s a) ≡ plus (difference s) (signed t a)
  unfolding total_by_type
  difference-total_by_type debit (d, c) a =
      ap (λ x. plus (value c) (negate x)) (value-add d a)
      ∙ ap (plus (value c)) (negate-plus laws _ _)
      ∙ sym (plus_assoc _ _ _)
  difference-total_by_type credit (d, c) a =
      ap (λ x. plus x (negate (value d))) (value-add c a)
      ∙ plus_assoc _ _ _
      ∙ ap (plus (value c)) (plus_comm _ _)
      ∙ sym (plus_assoc _ _ _)
  difference-total_by_type (EntryType.unknown _) (d, c) a = sym (plus-nil _)

  difference-totals :
      (es : List (Entry D)) (s : D × D)
      → difference (totals s es) ≡ plus (difference s) (signed_sum es)
  unfolding totals
  difference-totals [] s = sym (plus-nil _)
  difference-totals (e ∷ es) s =
      difference-totals es (total_by_type e.entry_type s e.amount)
      ∙ ap (λ x. plus x (signed_sum es)) (difference-total_by_type e.entry_type s e.amount)
      ∙ plus_assoc _ _ _

  difference-zero :
      (es : List (Entry D)) → difference (totals (dec.zero, dec.zero) es) ≡ signed_sum es
  difference-zero es =
      difference-totals es (dec.zero, dec.zero)
      ∙ ap (λ x. plus x (signed_sum es)) (plus-negate _)
      ∙ nil-plus laws _

  -- The balance test passes exactly when the signed amounts of the entries sum to nothing.
  pub validate_double_entry_balance_iff :
      (es : List (Entry D)) → (validate_double_entry_balance es ≡ none) ↔ (signed_sum es ≡ nil)
  unfolding validate_double_entry_balance
  validate_double_entry_balance_iff es =
      let t = totals (dec.zero, dec.zero) es in
      let d : difference t ≡ signed_sum es = difference-zero es in
      elim (Bool-cases (dec.equal t.0 t.1)) [
        | inl e ↦
            (λ _. sym d ∙ difference_of_eq laws _ _ (sym ((equal_iff t.0 t.1).0 e)), λ _. rw e)
        | inr e ↦ (
          λ h. absurd (cc),
          λ h. cc (e, (equal_iff t.0 t.1).1 (sym (eq_of_difference laws _ _ (d ∙ h)))),
        )
      ]
