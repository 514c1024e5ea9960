-- ===== src/Processor/Net.antt =====
-- The impacts that validateAccountsForPost adds up, against the sum of the changes of the entries.
use double_entry_ledger_engi.Decimal.Group.{nil-plus}
use double_entry_ledger_engi.Domain.{EntryType, credit, debit}
use double_entry_ledger_engi.Processor.Impacts.{
  Impact, add_impact, balance_impacts, impacts_from, apply_entry, is_key,
}
use double_entry_ledger_engi.Processor.{EntryRequest}
use double_entry_ledger_engi.Decimal.{Decimal, DecimalLaws}
use double_entry_ledger_engi.Base.{
  if◌then◌else◌, ◌&&◌, Bool, String, same, ◌≡◌, List, true, [], false, same_iff, sym, ◌∷◌,
  Bool-cases, ap₂, refl, ◌∙◌, ap, inl, inr,
}

-- Whether an entry request is of an account and a currency, by their texts.
abbrev pub of_request : {D : Type 0} → String → String → EntryRequest D → Bool
of_request account currency e = same e.account_id account && same e.currency_code currency

pub eq_of_same : (s t : String) → same s t ≡ true → s ≡ t
eq_of_same s t = (same_iff s t).0

and_left : (a b : Bool) → (a && b) ≡ true → a ≡ true
and_left true b h = refl
and_left false b h = absurd cc

and_right : (a b : Bool) → (a && b) ≡ true → b ≡ true
and_right true b h = h
and_right false b h = absurd cc

module _ {D : Type 0} ⦃dec : Decimal D⦄ (laws : DecimalLaws D dec) where
  open laws use {
    Number, value, nil, plus, negate, plus_assoc, plus_comm, plus-nil, value-zero, value-add,
    value-sub,
  }

  -- A credit adds to the account, every other entry takes away.
  abbrev pub change : EntryType → D → Number
  change credit a = value a
  change _ a = negate (value a)

  abbrev pub net : String → String → List (EntryRequest D) → Number
  net account currency [] = nil
  net account currency (e ∷ es) =
      plus (if of_request account currency e then change e.entry_type e.amount else nil)
        (net account currency es)

  -- What the map holds for a key, nothing where it has none.
  abbrev pub impact_at : String → String → List (Impact D) → Number
  impact_at account currency [] = nil
  impact_at account currency (i ∷ is) =
      if is_key account currency i then value i.amount else impact_at account currency is

  value-apply_entry :
      (t : EntryType) (x a : D) → value (apply_entry t x a) ≡ plus (value x) (change t a)
  value-apply_entry credit x a = value-add x a
  value-apply_entry debit x a = value-sub x a
  value-apply_entry (EntryType.unknown _) x a = value-sub x a

  same_keys :
      (account currency : String) (e : EntryRequest D) (i : Impact D)
      → is_key e.account_id e.currency_code i ≡ true
      → is_key account currency i ≡ of_request account currency e
  same_keys account currency e i h =
      ap₂ (λ a c. same a account && same c currency) (eq_of_same _ _ (and_left _ _ h))
        (eq_of_same _ _ (and_right (same i.account_id e.account_id) _ h))

  other_key :
      (account currency : String) (e : EntryRequest D) (i : Impact D)
      → is_key e.account_id e.currency_code i ≡ false
      → of_request account currency e ≡ true
      → is_key account currency i ≡ false
  other_key account currency e i h o =
      ap₂ (λ a c. is_key a c i) (sym (eq_of_same _ _ (and_left _ _ o)))
        (sym (eq_of_same _ _ (and_right (same e.account_id account) _ o)))
      ∙ h

  change_of : String → String → EntryRequest D → Number
  change_of account currency e =
      if of_request account currency e then change e.entry_type e.amount else nil

  pick_first :
      (b : Bool) (v c : Number)
      → v ≡ plus nil c
      → (if b then v else nil) ≡ plus nil (if b then c else nil)
  pick_first true v c h = h
  pick_first false v c h = sym (plus-nil _)

  pick_same :
      (b : Bool) (u v c r : Number)
      → u ≡ plus v c
      → (if b then u else r) ≡ plus (if b then v else r) (if b then c else nil)
  pick_same true u v c r h = h
  pick_same false u v c r h = sym (plus-nil _)

  pick_other :
      (b o : Bool) (v r u c : Number)
      → (o ≡ true → b ≡ false)
      → u ≡ plus r (if o then c else nil)
      → (if b then v else u) ≡ plus (if b then v else r) (if o then c else nil)
  pick_other true true v r u c apart h = absurd (cc (apart refl))
  pick_other true false v r u c apart h = sym (plus-nil _)
  pick_other false o v r u c apart h = h

  impact_at-add_impact :
      (account currency : String) (e : EntryRequest D) (is : List (Impact D))
      → impact_at account currency (add_impact e is)
        ≡ plus (impact_at account currency is) (change_of account currency e)
  unfolding add_impact change_of
  impact_at-add_impact account currency e [] = pick_first _ _ _ (
      value-apply_entry e.entry_type dec.zero e.amount
      ∙ ap (λ x. plus x (change e.entry_type e.amount)) value-zero)
  impact_at-add_impact account currency e (i ∷ is) =
      elim (Bool-cases (is_key e.account_id e.currency_code i)) [
        | inl k ↦ rw k (
            rw (same_keys account currency e i k)
              (pick_same _ _ _ _ _ (value-apply_entry e.entry_type i.amount e.amount)))
        | inr k ↦ rw k (
            pick_other _ _ _ _ _ _ (other_key account currency e i k)
              (impact_at-add_impact account currency e is))
      ]

  impact_at-impacts_from :
      (account currency : String) (es : List (EntryRequest D)) (is : List (Impact D))
      → impact_at account currency (impacts_from is es)
        ≡ plus (impact_at account currency is) (net account currency es)
  unfolding impacts_from change_of
  impact_at-impacts_from account currency [] is = sym (plus-nil _)
  impact_at-impacts_from account currency (e ∷ es) is =
      impact_at-impacts_from account currency es (add_impact e is)
      ∙ ap (λ x. plus x (net account currency es)) (impact_at-add_impact account currency e is)
      ∙ plus_assoc _ _ _

  -- The impact that is kept for an account and a currency is the sum of the changes of the entries
  -- with these two texts.
  pub balance_impacts-net :
      (account currency : String) (es : List (EntryRequest D))
      → impact_at account currency (balance_impacts es) ≡ net account currency es
  unfolding balance_impacts
  balance_impacts-net account currency es =
      impact_at-impacts_from account currency es [] ∙ nil-plus laws _
