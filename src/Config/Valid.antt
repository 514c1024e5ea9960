-- ===== src/Config/Valid.antt =====
-- internal/config/config.go, Validate, against what the settings must satisfy, part by part.
use double_entry_ledger_engi.Base.{
  String, ℕ, ℤ, List, is_below_zero, pos, ◌≡◌, any, false, negsuc, ◌<◌, ◌≤◌, same, ◌↔◌, true, ◌∷◌,
  Bool-cases, inl, same_iff, inr, [],
}
use mathlib.Core.List.{Memᴰ}
use native.Mathlib.Omega.{arith}
use double_entry_ledger_engi.Config.{exceeds, not_positive, outside, above}

-- 1 <= n <= limit
abbrev pub IsWithin : ℕ → ℤ → Type 0
IsWithin limit (pos n) = (1 ≤ n) × (n ≤ limit)
IsWithin limit (negsuc n) = ⊥

-- 0 < n
abbrev pub IsPositive : ℤ → Type 0
IsPositive (pos n) = 0 < n
IsPositive (negsuc n) = ⊥

abbrev pub IsNonneg : ℤ → Type 0
IsNonneg (pos n) = Unit
IsNonneg (negsuc n) = ⊥

abbrev pub IsAtMost : ℤ → ℤ → Type 0
IsAtMost (pos m) (pos n) = m ≤ n
IsAtMost (pos m) (negsuc n) = ⊥
IsAtMost (negsuc m) (pos n) = Unit
IsAtMost (negsuc m) (negsuc n) = n ≤ m

pub IsWithin-iff : (limit : ℕ) (n : ℤ) → (outside limit n ≡ false) ↔ IsWithin limit n
IsWithin-iff limit (pos n) = ground arith
IsWithin-iff limit (negsuc n) = ground arith

pub IsPositive-iff : (n : ℤ) → (not_positive n ≡ false) ↔ IsPositive n
IsPositive-iff (pos n) = ground arith
IsPositive-iff (negsuc n) = ground arith

pub IsNonneg-iff : (n : ℤ) → (is_below_zero n ≡ false) ↔ IsNonneg n
IsNonneg-iff (pos n) = ground arith
IsNonneg-iff (negsuc n) = ground arith

pub at_most_iff : (m n : ℤ) → (exceeds m n ≡ false) ↔ IsAtMost m n
at_most_iff (pos m) (pos n) = ground arith
at_most_iff (pos m) (negsuc n) = ground arith
at_most_iff (negsuc m) (pos n) = ground arith
at_most_iff (negsuc m) (negsuc n) = ground arith

pub limit_iff : (limit : ℕ) (n : ℤ) → (above limit n ≡ false) ↔ IsAtMost n (pos limit)
limit_iff limit (pos n) = ground arith
limit_iff limit (negsuc n) = ground arith

pub any_iff : (s : String) (l : List String) → (any (same s) l ≡ true) ↔ Memᴰ s l
any_iff s l = (to l, from l)
  where
    to : (l : List String) → any (same s) l ≡ true → Memᴰ s l
    to [] h = cc
    to (t ∷ l) h = elim (Bool-cases (same s t)) [
      | inl e ↦ Memᴰ.head ((same_iff s t).0 e)
      | inr e ↦ Memᴰ.tail (to l (rw e at h))
    ]

    from : (l : List String) → Memᴰ s l → any (same s) l ≡ true
    from [] m = elim m [ ]
    from (t ∷ l) (Memᴰ.head e) = rw ((same_iff s t).1 e)
    from (t ∷ l) (Memᴰ.tail m) = ground (arith, from l m)
