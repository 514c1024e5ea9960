-- ===== src/Base/Lists.antt =====
-- Lists over the native numbers: lengths and windows, as LIMIT and OFFSET cut them.
use Prim.Native.Nat.{ℕ, zero, suc, ◌+◌, compare, Ordering}
use mathlib.Core.Path.{◌≡◌, refl, ap}
use mathlib.Core.Bool.{Bool, true, false, not}
use mathlib.Core.List.{List, [], ◌∷◌, ◌++◌}
use native.Mathlib.Omega.{arith}
use native.Mathlib.Nat.{zero-add, suc-add}

abbrev pub ltb : ℕ → ℕ → Bool
ltb a b = elim (compare a b) [ Ordering.lt ↦ true | _ ↦ false ]

module _ {ℓ} {A : Type ℓ} where
  abbrev pub is_empty : List A → Bool
  is_empty [] = true
  is_empty (_ ∷ _) = false

  abbrev pub length : List A → ℕ
  length [] = 0
  length (x ∷ xs) = suc (length xs)

  abbrev pub take : ℕ → List A → List A
  take zero xs = []
  take (suc n) [] = []
  take (suc n) (x ∷ xs) = x ∷ take n xs

  abbrev pub drop : ℕ → List A → List A
  drop zero xs = xs
  drop (suc n) [] = []
  drop (suc n) (x ∷ xs) = drop n xs

  -- LIMIT n OFFSET m
  abbrev pub window : ℕ → ℕ → List A → List A
  window m n xs = take n (drop m xs)

  abbrev pub All {κ} : (A → Type κ) → List A → Type κ
  All P [] = Unit
  All P (x ∷ xs) = P x × All P xs

  pub All-take {κ} : (P : A → Type κ) (n : ℕ) (xs : List A) → All P xs → All P (take n xs)
  All-take P zero xs h = tt
  All-take P (suc n) [] h = tt
  All-take P (suc n) (x ∷ xs) h = (h.0, All-take P n xs h.1)

  pub All-drop {κ} : (P : A → Type κ) (n : ℕ) (xs : List A) → All P xs → All P (drop n xs)
  All-drop P zero xs h = h
  All-drop P (suc n) [] h = tt
  All-drop P (suc n) (x ∷ xs) h = All-drop P n xs h.1

  take-nil : (n : ℕ) → take n [] ≡ []
  take-nil zero = refl
  take-nil (suc n) = refl

  take-append : (m n : ℕ) (xs : List A) → take m xs ++ take n (drop m xs) ≡ take (m + n) xs
  take-append zero n xs = rw zero-add refl
  take-append (suc m) n [] = rw (take-nil n, take-nil (suc m + n)) refl
  take-append (suc m) n (x ∷ xs) = rw suc-add (ap (λ l. x ∷ l) (take-append m n xs))

  drop-drop : (m n : ℕ) (xs : List A) → drop n (drop m xs) ≡ drop (m + n) xs
  drop-drop zero n xs = rw zero-add refl
  drop-drop (suc m) zero [] = rw suc-add refl
  drop-drop (suc m) (suc n) [] = rw suc-add refl
  drop-drop (suc m) n (x ∷ xs) = rw suc-add (drop-drop m n xs)

  -- Two windows that meet are one.
  pub window-append :
      (o m n : ℕ) (xs : List A) → window o m xs ++ window (o + m) n xs ≡ window o (m + n) xs
  window-append o m n xs = rw (← drop-drop o m xs) (take-append m n (drop o xs))

  -- What the comparison of the end of a window with the length of the list tells.
  pub window-rest :
      (o n : ℕ) (xs : List A)
      → ltb (o + length (window o n xs)) (length xs) ≡ not (is_empty (drop (o + n) xs))
  window-rest zero zero [] = refl
  window-rest zero zero (x ∷ xs) = ground (arith, zero-add 0)
  window-rest zero (suc n) [] = ground arith
  window-rest zero (suc n) (x ∷ xs) = ground (arith, window-rest zero n xs, zero-add n)
  window-rest (suc o) n [] = ground (arith, take-nil n, suc-add o n)
  window-rest (suc o) n (x ∷ xs) = ground (arith, window-rest o n xs, suc-add o n)
