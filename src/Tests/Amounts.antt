-- ===== src/Tests/Amounts.antt =====
-- Whole amounts as decimals, with the laws that the package documents.
use double_entry_ledger_engi.Decimal.{Decimal, DecimalLaws, nonneg}
use double_entry_ledger_engi.Base.{ap, ◌∙◌, Bool, false, true, ◌≡◌, ◌↔◌, refl}
use std.Nat.{ℕ, zero, suc}
use std.Int.{ℤ, pos, negsuc, suc_ℤ, pred_ℤ, pred-suc, suc_ℤ-+ℤ, ◌+ℤ◌, +ℤ_assoc, +ℤ_comm}
use std.Sets.{ℤ_discrete}

abbrev pub Amount : Type 0
Amount = ℤ

abbrev pub int_equal : ℤ → ℤ → Bool
int_equal a b = elim (ℤ_discrete a b) [ yes _ ↦ true | no _ ↦ false ]

abbrev pub int_negate : ℤ → ℤ
int_negate (pos zero) = pos zero
int_negate (pos (suc n)) = negsuc n
int_negate (negsuc n) = pos (suc n)

abbrev pub int_abs : ℤ → ℤ
int_abs (pos n) = pos n
int_abs (negsuc n) = pos (suc n)

abbrev pub int_is_negative : ℤ → Bool
int_is_negative (pos n) = false
int_is_negative (negsuc n) = true

abbrev pub IntNonneg : ℤ → Type 0
IntNonneg a = int_is_negative a ≡ false

instance abbrev pub amount_decimal : Decimal Amount
amount_decimal = record {
  zero = pos 0;
  add = λ a b. a +ℤ b;
  sub = λ a b. a +ℤ int_negate b;
  abs = int_abs;
  equal = int_equal;
  is_negative = int_is_negative;
  exponent = λ a. nonneg 0;
}

pos_cancel : (n : ℕ) → pos (suc n) +ℤ negsuc n ≡ pos 0
unfolding ◌+ℤ◌ pred_ℤ
pos_cancel zero = refl
pos_cancel (suc n) = ap pred_ℤ (suc_ℤ-+ℤ (pos (suc n)) (negsuc n)) ∙ pred-suc _ ∙ pos_cancel n

pub negate_cancel : (a : ℤ) → a +ℤ int_negate a ≡ pos 0
unfolding ◌+ℤ◌
negate_cancel (pos zero) = refl
negate_cancel (pos (suc n)) = pos_cancel n
negate_cancel (negsuc n) = +ℤ_comm (negsuc n) (pos (suc n)) ∙ pos_cancel n

suc_nonneg : (a : ℤ) → IntNonneg a → IntNonneg (suc_ℤ a)
suc_nonneg (pos n) h = refl
suc_nonneg (negsuc n) h = absurd cc

pub nonneg_add : (a b : ℤ) → IntNonneg a → IntNonneg b → IntNonneg (a +ℤ b)
unfolding ◌+ℤ◌
nonneg_add a (pos zero) h k = h
nonneg_add a (pos (suc n)) h k = suc_nonneg (a +ℤ pos n) (nonneg_add a (pos n) h refl)
nonneg_add a (negsuc n) h k = absurd cc

pub equal_ok : (a b : ℤ) → (int_equal a b ≡ true) ↔ (a ≡ b)
equal_ok a b =
    elim (ℤ_discrete a b)
      as (λ d. (elim d as (λ _. Bool) [ yes _ ↦ true | no _ ↦ false ] ≡ true) ↔ (a ≡ b)) [
        | yes p ↦ (λ _. p, λ _. refl)
        | no p ↦ (λ h. absurd cc, λ h. absurd (p h))
      ]

pub add_nil : (a : ℤ) → a +ℤ pos 0 ≡ a
unfolding ◌+ℤ◌
add_nil a = refl

abbrev pub amount_laws : DecimalLaws Amount amount_decimal
amount_laws = record {
  Number = ℤ;
  value = λ a. a;
  nil = pos 0;
  plus = λ a b. a +ℤ b;
  negate = int_negate;
  plus_assoc = +ℤ_assoc;
  plus_comm = +ℤ_comm;
  plus-nil = add_nil;
  plus-negate = negate_cancel;
  value-zero = refl;
  value-add = λ a b. refl;
  value-sub = λ a b. refl;
  equal_iff = equal_ok;
  Nonneg = IntNonneg;
  nonneg_iff = λ a. (λ h. h, λ h. h);
  nonneg-plus = nonneg_add;
}
