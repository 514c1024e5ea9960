-- ===== src/Query/Order.antt =====
-- The order of a listing and what each of its rows has.
use double_entry_ledger_engi.Query.{insert_ordered, ordered, precedes}
use double_entry_ledger_engi.Store.{TransactionRow}
use double_entry_ledger_engi.Base.{
  Bool, List, arith, ℕ, ◌≤◌, All, drop, take, true, window, ◌∷◌, ◌≡◌, Bool-cases, [], false, suc,
  All-take, inl, zero, All-map, inr,
}

abbrev pub Precedes : Bool → TransactionRow → TransactionRow → Type 0
Precedes true a b = a.posted_at ≤ b.posted_at
Precedes false a b = b.posted_at ≤ a.posted_at

-- Each row may stand before all that follow it.
abbrev pub IsOrdered : Bool → List TransactionRow → Type 0
IsOrdered ascending [] = Unit
IsOrdered ascending (r ∷ rows) = All (Precedes ascending r) rows × IsOrdered ascending rows

Precedes-trans :
    (ascending : Bool) (a b c : TransactionRow)
    → Precedes ascending a b
    → Precedes ascending b c
    → Precedes ascending a c
Precedes-trans true a b c h k = omega arith
Precedes-trans false a b c h k = omega arith

precedes-true :
    (ascending : Bool) (a b : TransactionRow)
    → precedes ascending a b ≡ true
    → Precedes ascending a b
precedes-true true a b h = ground arith
precedes-true false a b h = ground arith

precedes-false :
    (ascending : Bool) (a b : TransactionRow)
    → precedes ascending a b ≡ false
    → Precedes ascending b a
precedes-false true a b h = ground arith
precedes-false false a b h = ground arith

module _ (P : TransactionRow → Type 0) where
  All-insert_ordered :
      (ascending : Bool) (r : TransactionRow) (rows : List TransactionRow)
      → P r
      → All P rows
      → All P (insert_ordered ascending r rows)
  unfolding insert_ordered
  All-insert_ordered ascending r [] p h = (p, tt)
  All-insert_ordered ascending r (s ∷ rows) p h = elim (Bool-cases (precedes ascending r s)) [
    | inl first ↦ rw first (p, h)
    | inr later ↦ rw later (h.0, All-insert_ordered ascending r rows p h.1)
  ]

  pub All-ordered :
      (ascending : Bool) (rows : List TransactionRow) → All P rows → All P (ordered ascending rows)
  unfolding ordered
  All-ordered ascending [] h = tt
  All-ordered ascending (r ∷ rows) h =
      All-insert_ordered ascending r (ordered ascending rows) h.0 (All-ordered ascending rows h.1)

module _ (ascending : Bool) where
  insert_ordered-IsOrdered :
      (r : TransactionRow) (rows : List TransactionRow)
      → IsOrdered ascending rows
      → IsOrdered ascending (insert_ordered ascending r rows)
  unfolding insert_ordered
  insert_ordered-IsOrdered r [] h = (tt, tt)
  insert_ordered-IsOrdered r (s ∷ rows) h = elim (Bool-cases (precedes ascending r s)) [
    | inl first ↦
        let r_s = precedes-true ascending r s first in
        rw first (((r_s, All-map (λ t. Precedes-trans ascending r s t r_s) rows h.0)), h)
    | inr later ↦ rw later (
      All-insert_ordered (Precedes ascending s) ascending r rows
          (precedes-false ascending r s later) h.0,
      insert_ordered-IsOrdered r rows h.1,
    )
  ]

  pub ordered-IsOrdered :
      (rows : List TransactionRow) → IsOrdered ascending (ordered ascending rows)
  unfolding ordered
  ordered-IsOrdered [] = tt
  ordered-IsOrdered (r ∷ rows) =
      insert_ordered-IsOrdered r (ordered ascending rows) (ordered-IsOrdered rows)

  IsOrdered-take :
      (n : ℕ) (rows : List TransactionRow)
      → IsOrdered ascending rows
      → IsOrdered ascending (take n rows)
  IsOrdered-take zero rows h = tt
  IsOrdered-take (suc n) [] h = tt
  IsOrdered-take (suc n) (r ∷ rows) h =
      (All-take (Precedes ascending r) n rows h.0, IsOrdered-take n rows h.1)

  IsOrdered-drop :
      (n : ℕ) (rows : List TransactionRow)
      → IsOrdered ascending rows
      → IsOrdered ascending (drop n rows)
  IsOrdered-drop zero rows h = h
  IsOrdered-drop (suc n) [] h = tt
  IsOrdered-drop (suc n) (r ∷ rows) h = IsOrdered-drop n rows h.1

  pub IsOrdered-window :
      (o n : ℕ) (rows : List TransactionRow)
      → IsOrdered ascending rows
      → IsOrdered ascending (window o n rows)
  IsOrdered-window o n rows h = IsOrdered-take n (drop o rows) (IsOrdered-drop o rows h)
