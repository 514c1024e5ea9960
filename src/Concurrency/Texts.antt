-- ===== src/Concurrency/Texts.antt =====
-- Texts are compared in a total order.
use double_entry_ledger_engi.Base.{◌≡◌, arith, false, refl, ◌∙◌, ap, true, sym, ap₂}
use double_entry_ledger_engi.Concurrency.{text_le}
use Prim.Native.Nat.{Ordering, compare as compare_ℕ, ℕ}
use Prim.Native.String.compare
use Prim.Native.Char.{code}
use text.Mathlib.Text.{is_le}
use Prim.Native.String.{[], ◌∷◌, then, compare, String}

flip : Ordering → Ordering
flip Ordering.lt = Ordering.gt
flip Ordering.eq = Ordering.eq
flip Ordering.gt = Ordering.lt

flip-compare_nat : (m n : ℕ) → compare_ℕ n m ≡ flip (compare_ℕ m n)
unfolding flip
flip-compare_nat m n = ground arith

flip-then : (o r : Ordering) → then (flip o) (flip r) ≡ flip (then o r)
unfolding flip
flip-then Ordering.lt r = refl
flip-then Ordering.eq r = refl
flip-then Ordering.gt r = refl

flip-compare : (s t : String) → compare t s ≡ flip (compare s t)
unfolding flip
flip-compare [] [] = cc
flip-compare [] (d ∷ t) = compare.cons-nil d t ∙ ap flip (sym (compare.nil-cons d t))
flip-compare (c ∷ s) [] = compare.nil-cons c s ∙ ap flip (sym (compare.cons-nil c s))
flip-compare (c ∷ s) (d ∷ t) =
    compare.cons-cons d c t s
    ∙ ap₂ then (flip-compare_nat (code c) (code d)) (flip-compare s t)
    ∙ flip-then (compare_ℕ (code c) (code d)) (compare s t)
    ∙ ap flip (sym (compare.cons-cons c d s t))

flip-le : (o : Ordering) → is_le o ≡ false → is_le (flip o) ≡ true
unfolding flip
flip-le Ordering.gt h = refl
flip-le _ h = absurd cc

pub text_le_total : (s t : String) → text_le s t ≡ false → text_le t s ≡ true
text_le_total s t h = ap is_le (flip-compare s t) ∙ flip-le (compare s t) h
