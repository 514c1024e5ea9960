-- ===== src/Query/Paged.antt =====
-- The pages of ListTransactions against an ordering that the code does not define.
use double_entry_ledger_engi.Query.Order.{IsOrdered, ordered-IsOrdered}
use double_entry_ledger_engi.Query.Listed.{list_transactions-window, account_of}
use double_entry_ledger_engi.Query.Pages.{ReadsBack, full}
use double_entry_ledger_engi.Store.{Env, TransactionRow, Db, World}
use double_entry_ledger_engi.Query.{
  insert_ordered, ordered, page_limit, page_offset, TransactionFilter, is_ascending,
  TransactionPage, list_transactions, precedes, selects,
}
use double_entry_ledger_engi.Decimal.{Decimal}
use double_entry_ledger_engi.Base.{
  ℕ, ℤ, Bool, List, negsuc, pos, ◌≡◌, Bool-cases, not, refl, ◌∷◌, ◌⊎◌, [], is_empty, ◌<◌, ◌==◌,
  drop, inl, ◌≤◌, arith, ltb, inr, length, ok, map, suc, zero, window, ◌+◌, same, ◌∙◌,
}
use mathlib.Core.List.{Permᴰ}
use mathlib.Core.List.Permᴰ
use double_entry_ledger_engi.Base

insert_ordered-Permᴰ :
    (ascending : Bool) (r : TransactionRow) (rows : List TransactionRow)
    → Permᴰ (insert_ordered ascending r rows) (r ∷ rows)
unfolding insert_ordered
insert_ordered-Permᴰ ascending r [] = Permᴰ.refl (r ∷ [])
insert_ordered-Permᴰ ascending r (s ∷ rows) = elim (Bool-cases (precedes ascending r s)) [
  | inl y ↦ rw y (Permᴰ.refl (r ∷ s ∷ rows))
  | inr n ↦
      rw n (
        Permᴰ.trans (Permᴰ.cons refl (insert_ordered-Permᴰ ascending r rows))
          (Permᴰ.swap refl refl))
]

ordered-Permᴰ :
    (ascending : Bool) (rows : List TransactionRow) → Permᴰ (ordered ascending rows) rows
unfolding ordered
ordered-Permᴰ ascending [] = Permᴰ.nil
ordered-Permᴰ ascending (r ∷ rows) =
    Permᴰ.trans (insert_ordered-Permᴰ ascending r (ordered ascending rows))
      (Permᴰ.cons refl (ordered-Permᴰ ascending rows))

-- A limit of the request and the one of the page: 100 where none is asked for, 1000 at most.
abbrev pub IsPageLimit : ℤ → ℕ → Type 0
IsPageLimit (negsuc k) n = n ≡ 100
IsPageLimit (pos k) n =
    ((k ≡ 0) × (n ≡ 100)) ⊎ ((0 < k) × (k ≤ 1000) × (n ≡ k)) ⊎ ((1000 < k) × (n ≡ 1000))

abbrev pub IsPageOffset : ℤ → ℕ → Type 0
IsPageOffset (negsuc k) n = n ≡ 0
IsPageOffset (pos k) n = n ≡ k

page_limit-IsPageLimit : (limit : ℤ) → IsPageLimit limit (page_limit limit)
unfolding page_limit
page_limit-IsPageLimit (negsuc k) = refl
page_limit-IsPageLimit (pos k) = elim (Bool-cases (k == 0)) [
  | inl z ↦ inl (ground arith, ground arith)
  | inr n ↦ elim (Bool-cases (ltb 1000 k)) [
    | inl y ↦ inr (inr (ground arith, ground arith))
    | inr m ↦ inr (inl (ground arith, ground arith, ground arith))
  ]
]

page_offset-IsPageOffset : (offset : ℤ) → IsPageOffset offset (page_offset offset)
unfolding page_offset
page_offset-IsPageOffset (negsuc k) = refl
page_offset-IsPageOffset (pos k) = refl

rest_left :
    (n : ℕ) (rows : List TransactionRow) → not (is_empty (drop n rows)) ≡ ltb n (length rows)
rest_left zero [] = refl
rest_left zero (r ∷ rows) = ground arith
rest_left (suc n) [] = ground arith
rest_left (suc n) (r ∷ rows) = ground (arith, rest_left n rows)

module _ {D : Type 0} ⦃dec : Decimal D⦄ (env : Env) where
  -- The rows are those that meet the filter, each as often as in the table, by the time of posting:
  -- the oldest first for the order "timestamp_asc", the newest first for any other.
  abbrev pub IsListing : TransactionFilter → Db D → List TransactionRow → Type 0
  IsListing filter db rows =
      Permᴰ rows
        (Base.filter (selects db filter (account_of env filter.account_id)) db.transactions)
      × IsOrdered (same filter.order_by "timestamp_asc") rows

  -- A page of ListTransactions that is answered is a window of the rows that meet the filter, each
  -- with all its entries, in some order by the time of posting: it starts at the offset of the filter,
  -- 0 where that is negative, and has as many rows as its limit allows, 100 where the limit is not
  -- positive and 1000 at most. The total counts all those rows, and `has_more` tells whether any
  -- follows the window. Rows of one time may stand in another order on another page.
  pub list_transactions-IsListing :
      (filter : TransactionFilter) (w : World D) (page : TransactionPage D)
      → ReadsBack env
      → (list_transactions env filter w).0 ≡ ok page
      → (rows : List TransactionRow) × (limit : ℕ) × (offset : ℕ) × IsListing filter w.db rows
        × IsPageLimit filter.limit limit
        × IsPageOffset filter.offset offset
        × (page.transactions ≡ map (full env w.db) (window offset limit rows))
        × (page.total_count ≡ length rows)
        × (page.has_more ≡ ltb (offset + limit) (length rows))
  unfolding is_ascending
  list_transactions-IsListing filter w page reads_back h =
      let (shown, total, more) = list_transactions-window env filter w page reads_back h in
      let chosen =
        Base.filter (selects w.db filter (account_of env filter.account_id)) w.db.transactions in
      let ascending = is_ascending filter.order_by in
      (
        ordered ascending chosen,
        page_limit filter.limit,
        page_offset filter.offset,
        (ordered-Permᴰ ascending chosen, ordered-IsOrdered ascending chosen),
        page_limit-IsPageLimit filter.limit,
        page_offset-IsPageOffset filter.offset,
        shown,
        total,
        more ∙ rest_left (page_offset filter.offset + page_limit filter.limit) _,
      )
