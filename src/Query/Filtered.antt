-- ===== src/Query/Filtered.antt =====
-- Each page of ListTransactions is in order, and what it holds meets the filter.
use double_entry_ledger_engi.Query.Meets.{
  Before, InOrder, IsParsed, Meets, and_true, entry_met, given_state, given_start, given_end,
  all-true,
}
use double_entry_ledger_engi.Store.Reading.{next_run}
use double_entry_ledger_engi.Query.Order.{
  IsOrdered, Precedes, IsOrdered-window, ordered-IsOrdered, All-ordered,
}
use double_entry_ledger_engi.Base
use double_entry_ledger_engi.Query.Pages.{full, ReadsBack}
use double_entry_ledger_engi.Query.Listed.{account_of, list_transactions-window}
use double_entry_ledger_engi.Query.{
  TransactionFilter, all, unless_nil, has_metadata, joins, list_transactions, selects, in_dates,
  TransactionPage, account_argument, is_ascending, page_offset, page_limit, ordered,
}
use double_entry_ledger_engi.Domain.{Transaction}
use double_entry_ledger_engi.Decimal.{Decimal}
use double_entry_ledger_engi.Store.{Env, Uuid, Db, TransactionRow, run, World}
use double_entry_ledger_engi.Base.{
  Bool, Option, List, String, some, ℕ, ◌&&◌, none, ◌∷◌, ◌≡◌, ◌≤◌, All, any, false, leb, same, true,
  [], arith, refl, same_iff, ◌==◌, map, filter, Bool-cases, inl, inr, ap, subst, ok, Option-cases,
  sym, window, All-take, drop, All-drop,
}

filtered :
    (p : TransactionRow → Bool) (rows : List TransactionRow)
    → All (λ r. p r ≡ true) (Base.filter p rows)
filtered p [] = tt
filtered p (r ∷ rows) = elim (Bool-cases (p r)) [
  | inl y ↦ rw y (y, filtered p rows)
  | inr n ↦ rw n (filtered p rows)
]

module _ {D : Type 0} ⦃dec : Decimal D⦄ (env : Env) where
  row-Meets :
      (db : Db D) (filter : TransactionFilter) (row : TransactionRow)
      → IsParsed env filter.account_id
      → selects db filter (account_of env filter.account_id) row ≡ true
      → Meets env filter (full env db row)
  unfolding selects
  row-Meets db filter row parsed h =
      let (h1, metadata) = and_true _ (all (has_metadata row.metadata) filter.metadata) h in
      let (h2, dates) = and_true _ (in_dates filter.start_date filter.end_date row) h1 in
      let (entry, state) =
        and_true (joins db (account_of env filter.account_id) filter.currency row) _ h2 in
      let (start, end) =
        and_true (unless_nil filter.start_date (λ time. leb time row.posted_at)) _ dates in
      (
        entry_met env db filter.account_id filter.currency row parsed entry,
        given_state filter.state row.state state,
        given_start filter.start_date row.posted_at start,
        given_end filter.end_date row.posted_at end,
        all-true (has_metadata row.metadata) filter.metadata metadata,
      )

  All-full :
      (P : TransactionRow → Type 0) (Q : Transaction D → Type 0) (db : Db D)
      → ((row : TransactionRow) → P row → Q (full env db row))
      → (rows : List TransactionRow) → All P rows
      → All Q (map (full env db) rows)
  All-full P Q db f [] h = tt
  All-full P Q db f (row ∷ rows) h = (f row h.0, All-full P Q db f rows h.1)

  Before-full :
      (ascending : Bool) (db : Db D) (a b : TransactionRow)
      → Precedes ascending a b
      → Before ascending (full env db a) (full env db b)
  Before-full true db a b h = h
  Before-full false db a b h = h

  full-InOrder :
      (ascending : Bool) (db : Db D) (rows : List TransactionRow)
      → IsOrdered ascending rows
      → InOrder ascending (map (full env db) rows)
  full-InOrder ascending db [] h = tt
  full-InOrder ascending db (row ∷ rows) h = (
    All-full (Precedes ascending row) (Before ascending (full env db row)) db
        (Before-full ascending db row) rows h.0,
    full-InOrder ascending db rows h.1,
  )

  account-IsParsed :
      (a : Option String) (w : World D) (o : Option Uuid)
      → (account_argument env a w).0 ≡ ok o
      → IsParsed env a
  unfolding run
  account-IsParsed none w o h = tt
  account-IsParsed (some a) w o h = elim (Option-cases (env.parse a)) [
    | inl n ↦ absurd (ground arith)
    | inr p ↦ p
  ]

  -- The transactions of a page of ListTransactions stand in the order of posting that the filter
  -- asks for, and each meets every condition of the filter, with one entry that is both of the
  -- account and in the currency where both are given.
  pub list_transactions-Meets :
      (filter : TransactionFilter) (w : World D) (page : TransactionPage D)
      → ReadsBack env
      → (list_transactions env filter w).0 ≡ ok page
      → InOrder (is_ascending filter.order_by) page.transactions
        × All (Meets env filter) page.transactions
  unfolding list_transactions
  list_transactions-Meets filter w page reads_back h =
      let (_, account_is, _, _) = next_run (account_argument env filter.account_id) _ w page h in
      let parsed = account-IsParsed filter.account_id w _ account_is in
      let rows = (list_transactions-window env filter w page reads_back h).0 in
      let o = page_offset filter.offset in
      let n = page_limit filter.limit in
      let chosen =
        Base.filter (selects w.db filter (account_of env filter.account_id)) w.db.transactions in
      let ascending = is_ascending filter.order_by in
      (
        subst (InOrder ascending) (sym rows) (
            full-InOrder ascending w.db _
              (IsOrdered-window ascending o n _ (ordered-IsOrdered ascending chosen))),
        subst (All (Meets env filter)) (sym rows) (
            All-full (λ r. selects w.db filter (account_of env filter.account_id) r ≡ true)
              (Meets env filter) w.db (λ r. row-Meets w.db filter r parsed)
              (window o n (ordered ascending chosen))
              (All-take _ n (drop o (ordered ascending chosen)) (
                All-drop _ o (ordered ascending chosen)
                  (All-ordered _ ascending chosen (filtered _ w.db.transactions))))),
      )
