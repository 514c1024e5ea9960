-- ===== src/Query/Pages.antt =====
-- What a page of internal/service/query holds: a window of one list.
use double_entry_ledger_engi.Store.Reading.{next_run}
use double_entry_ledger_engi.Ledger.{scan_transaction, scan_entry}
use double_entry_ledger_engi.Domain.{Transaction, Entry}
use double_entry_ledger_engi.Base.{
  List, ◌≡◌, any, some, filter, ◌==◌, map, ok, true, ◌∷◌, [], arith, refl, Bool-cases, ℕ, inl,
  subst, sym, inr, All, All-map, ap, ap₂, ◌∙◌, Result, pure, ◌>>=◌, Bool, String, window, length,
}
use double_entry_ledger_engi.Query.{
  scan_rows, fetch_entries_by_transaction_ids, attach, id_or_nil, read_page, ordered,
}
use double_entry_ledger_engi.Decimal.{Decimal}
use double_entry_ledger_engi.Store.{
  Db, Env, Uuid, TransactionRow, EntryRow, run, World, pool, Error, wrap, call, select_count,
  select_page,
}

-- uuid.Parse reads what String has written.
abbrev pub ReadsBack : Env → Type 0
ReadsBack env = (id : Uuid) → env.parse (env.to_string id) ≡ some id

pub ==_eq : (m n : ℕ) → (m == n) ≡ true → m ≡ n
==_eq m n h = ground arith

-- Each id of a list is found in it.
ids_found : (ids : List Uuid) → All (λ n. any (λ id. n == id) ids ≡ true) ids
ids_found [] = tt
ids_found (n ∷ ids) = (ground arith, All-map (λ m h. ground arith) ids (ids_found ids))

module _ {D : Type 0} where
  -- The entries of a transaction, in the order of the table.
  abbrev pub entries_of : Db D → Uuid → List (EntryRow D)
  entries_of db id = filter (λ (e : EntryRow D). e.transaction_id == id) db.entries

  -- The rows that a WHERE clause selects, in their order.
  abbrev pub listing : Bool → (Db D → TransactionRow → Bool) → Db D → List TransactionRow
  listing ascending where_clause db = ordered ascending (filter (where_clause db) db.transactions)

  filter-filter :
      (n : Uuid) (ids : List Uuid) (es : List (EntryRow D))
      → any (λ id. n == id) ids ≡ true
      → filter
          (λ (e : EntryRow D). e.transaction_id == n)
          (filter (λ (e : EntryRow D). any (λ id. e.transaction_id == id) ids) es)
        ≡ filter (λ (e : EntryRow D). e.transaction_id == n) es
  filter-filter n ids [] h = refl
  filter-filter n ids (e ∷ es) h = elim (Bool-cases (e.transaction_id == n)) [
    | inl same_id ↦
        let listed : any (λ id. e.transaction_id == id) ids ≡ true =
          subst (λ k. any (λ id. k == id) ids ≡ true) (sym (==_eq _ n same_id)) h in
        ground (arith, filter-filter n ids es h)
    | inr other ↦ ground (arith, filter-filter n ids es h)
  ]

module _ {D : Type 0} ⦃dec : Decimal D⦄ (env : Env) where
  -- The row of a transaction with the rows of its entries.
  abbrev pub full : Db D → TransactionRow → Transaction D
  full db row = record (scan_transaction env row) {
    entries = map (scan_entry env) (entries_of db row.transaction_id);
  }

  scanned :
      (rows : List TransactionRow) (w : World D)
      → ReadsBack env
      → scan_rows env rows w ≡ (
        ok (
          map (scan_transaction env) rows,
          map (λ (row : TransactionRow). row.transaction_id) rows,
        ),
        w,
      )
  unfolding scan_rows run
  scanned [] w reads_back = refl
  scanned (row ∷ rows) w reads_back =
      ground (arith, reads_back row.transaction_id, scanned rows w reads_back)

  -- What the statement that fetches entries answers where it succeeds.
  fetched :
      (first : Uuid) (ids : List Uuid) (w : World D) (f : Uuid → List (Entry D))
      → (fetch_entries_by_transaction_ids env pool (first ∷ ids) w).0 ≡ ok f
      → f ≡ λ id. map (scan_entry env) (
          filter
            (λ (e : EntryRow D). e.transaction_id == id)
            (filter
              (λ (e : EntryRow D). any (λ i. e.transaction_id == i) (first ∷ ids))
              w.db.entries))
  unfolding fetch_entries_by_transaction_ids run
  fetched first ids w f h = ground arith

  fetched_each :
      (ids : List Uuid) (w : World D) (f : Uuid → List (Entry D))
      → (fetch_entries_by_transaction_ids env pool ids w).0 ≡ ok f
      → All (λ id. f id ≡ map (scan_entry env) (entries_of w.db id)) ids
  fetched_each [] w f h = tt
  fetched_each (first ∷ ids) w f h =
      All-map
        (λ id known.
          ap (λ (g : Uuid → List (Entry D)). g id) (fetched first ids w f h)
          ∙ ap (map (scan_entry env)) (filter-filter id (first ∷ ids) w.db.entries known))
        (first ∷ ids) (ids_found (first ∷ ids))

  attached :
      (rows : List TransactionRow) (db : Db D) (f : Uuid → List (Entry D))
      → ReadsBack env
      → All
          (λ id. f id ≡ map (scan_entry env) (entries_of db id))
          (map (λ (row : TransactionRow). row.transaction_id) rows)
      → map (attach env f) (map (scan_transaction env) rows) ≡ map (full db) rows
  attached [] db f reads_back h = refl
  attached (row ∷ rows) db f reads_back h =
      ap₂ (λ t ts. t ∷ ts)
        (ap (λ (l : List (Entry D)). record (scan_transaction env row) { entries = l })
          (ap (λ o. f (id_or_nil o)) (reads_back row.transaction_id) ∙ h.0))
        (attached rows db f reads_back h.1)

  pub ok_eq : {A : Type 0} (a b : A) → ◌≡◌ {A = Result (Error D) A} (ok a) (ok b) → a ≡ b
  ok_eq a b h = cc

  scanned_ok :
      (rows : List TransactionRow) (w : World D) (found : List (Transaction D) × List Uuid)
      → ReadsBack env
      → (scan_rows env rows w).0 ≡ ok found
      → ((map (scan_transaction env) rows, map (λ (row : TransactionRow). row.transaction_id) rows)
          ≡ found)
        × ((scan_rows env rows w).1 ≡ w)
  scanned_ok rows w found reads_back h = (
    ok_eq _ found (sym (ap (λ p. p.0) (scanned rows w reads_back)) ∙ h),
    ap (λ p. p.1) (scanned rows w reads_back),
  )

  page_of :
      (rows : List TransactionRow) (w : World D) (total : ℕ) (p : List (Transaction D) × ℕ)
      → ReadsBack env
      → ((do
        found ← scan_rows env rows
        entries ← fetch_entries_by_transaction_ids env pool found.1
        pure (map (attach env entries) found.0, total))
          w).0
        ≡ ok p
      → (map (full w.db) rows, total) ≡ p
  unfolding pure
  page_of rows w total p reads_back h =
      let (found, scanned_is, h1, _) = next_run (scan_rows env rows) _ w p h in
      let (found_is, same_world) = scanned_ok rows w found reads_back scanned_is in
      let (f, fetched_is, h2, _) =
        next_run (fetch_entries_by_transaction_ids env pool found.1) _ _ p h1 in
      let each : All (λ id. f id ≡ map (scan_entry env) (entries_of w.db id)) found.1 =
        subst
          (λ (v : World D). All (λ id. f id ≡ map (scan_entry env) (entries_of v.db id)) found.1)
          same_world (fetched_each found.1 _ f fetched_is) in
      ap (λ (ts : List (Transaction D)). (ts, total))
        (sym (
            attached rows w.db f reads_back (
              subst
                (λ (q : List (Transaction D) × List Uuid).
                  All (λ id. f id ≡ map (scan_entry env) (entries_of w.db id)) q.1)
                (sym found_is) each))
          ∙ ap (λ (q : List (Transaction D) × List Uuid). map (attach env f) q.0) found_is)
      ∙ ok_eq _ p h2

  pub page_read :
      (count_text rows_text : String) (ascending : Bool)
      (where_clause : Db D → TransactionRow → Bool) (limit offset : ℕ) (w : World D)
      (p : List (Transaction D) × ℕ)
      → ReadsBack env
      → (read_page env count_text rows_text ascending where_clause limit offset w).0 ≡ ok p
      → (
        map (full w.db) (window offset limit (listing ascending where_clause w.db)),
        length (filter (where_clause w.db) w.db.transactions),
      )
        ≡ p
  unfolding read_page run
  page_read count_text rows_text ascending where_clause limit offset w p reads_back h =
      let (_, _, h1, _) = next_run (wrap count_text (call env select_count)) _ w p h in
      let (_, _, h2, _) = next_run (wrap rows_text (call env select_page)) _ _ p h1 in
      page_of (window offset limit (listing ascending where_clause w.db)) _ _ p reads_back h2
