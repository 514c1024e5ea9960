-- ===== src/Decimal/Group.antt =====
-- The numbers that decimals stand for form a commutative group: the rules that sums need.
use double_entry_ledger_engi.Base.{◌≡◌, sym, ap, ap₂, ◌∙◌}
use double_entry_ledger_engi.Decimal.{Decimal, DecimalLaws}

module _ {D : Type 0} ⦃dec : Decimal D⦄ (laws : DecimalLaws D dec) where
  open laws use {Number, nil, plus, negate, plus_assoc, plus_comm, plus-nil, plus-negate}

  pub nil-plus : (a : Number) → plus nil a ≡ a
  nil-plus a = plus_comm nil a ∙ plus-nil a

  pub plus_swap : (a b c d : Number) → plus (plus a b) (plus c d) ≡ plus (plus a c) (plus b d)
  plus_swap a b c d =
      plus_assoc a b (plus c d)
      ∙ ap (plus a) (sym (plus_assoc b c d) ∙ ap (λ x. plus x d) (plus_comm b c) ∙ plus_assoc c b d)
      ∙ sym (plus_assoc a c (plus b d))

  pub plus_cancel : (a b c : Number) → plus a c ≡ plus b c → a ≡ b
  plus_cancel a b c h =
      sym (plus-nil a)
      ∙ ap (plus a) (sym (plus-negate c))
      ∙ sym (plus_assoc a c (negate c))
      ∙ ap (λ x. plus x (negate c)) h
      ∙ plus_assoc b c (negate c)
      ∙ ap (plus b) (plus-negate c)
      ∙ plus-nil b

  pub negate_unique : (a b : Number) → plus a b ≡ nil → b ≡ negate a
  negate_unique a b h =
      plus_cancel b (negate a) a (plus_comm b a ∙ h ∙ sym (plus-negate a) ∙ plus_comm a (negate a))

  pub negate_negate : (a : Number) → negate (negate a) ≡ a
  negate_negate a = sym (negate_unique (negate a) a (plus_comm (negate a) a ∙ plus-negate a))

  pub negate-nil : negate nil ≡ nil
  negate-nil = sym (negate_unique nil nil (plus-nil nil))

  pub negate-plus : (a b : Number) → negate (plus a b) ≡ plus (negate a) (negate b)
  negate-plus a b = sym (
      negate_unique (plus a b) (plus (negate a) (negate b)) (
        plus_swap a b (negate a) (negate b)
        ∙ ap₂ plus (plus-negate a) (plus-negate b)
        ∙ plus-nil nil))

  -- a - b is 0 exactly when a and b are one number.
  pub eq_of_difference : (a b : Number) → plus a (negate b) ≡ nil → a ≡ b
  eq_of_difference a b h = plus_cancel a b (negate b) (h ∙ sym (plus-negate b))

  pub difference_of_eq : (a b : Number) → a ≡ b → plus a (negate b) ≡ nil
  difference_of_eq a b h = rw h (plus-negate b)
