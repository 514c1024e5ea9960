-- ===== src/Processor/Rows.antt =====
-- The rows that a posting writes.
use double_entry_ledger_engi.Store.Reading.{next_run}
use double_entry_ledger_engi.Domain.{EntryType, Entry}
use double_entry_ledger_engi.Ledger.{
  insert_entries, insert_entry_row, LedgerEntryInput, check_entry, check_account, row_of,
}
use double_entry_ledger_engi.Base.{
  List, ◌++◌, ◌≡◌, String, [], ◌∷◌, ap, some, refl, ℕ, ok, Option-cases, inl, arith, inr, pure, ◌∙◌,
}
use double_entry_ledger_engi.Store.{Db, EntryRow, Env, Uuid, wrap, run, World}
use double_entry_ledger_engi.Decimal.{Decimal}

module _ {D : Type 0} where
  -- What a row of `entries` takes from the request.
  abbrev pub row_shape : EntryRow D → Uuid × String × D × EntryType × String
  row_shape e = (e.account_id, e.currency_code, e.amount, e.entry_type, e.description)

  -- The row stands for the entry: the account is the UUID that its text denotes.
  abbrev pub IsRowOf : Env → Uuid → LedgerEntryInput D → EntryRow D → Type 0
  IsRowOf env id e row =
      (env.parse e.account_id ≡ some row.account_id)
      × (row.transaction_id ≡ id)
      × (row.currency_code ≡ e.currency_code)
      × (row.amount ≡ e.amount)
      × (row.entry_type ≡ e.entry_type)

  -- One row for each entry, in their order.
  abbrev pub AreRowsOf : Env → Uuid → List (LedgerEntryInput D) → List (EntryRow D) → Type 0
  AreRowsOf env id [] [] = Unit
  AreRowsOf env id (e ∷ es) (row ∷ rows) = IsRowOf env id e row × AreRowsOf env id es rows
  AreRowsOf env id _ _ = ⊥

  abbrev pub add_rows : Db D → List (EntryRow D) → Db D
  add_rows db rows = record db { entries = db.entries ++ rows }

  append_one :
      (xs : List (EntryRow D)) (y : EntryRow D) (ys : List (EntryRow D))
      → (xs ++ y ∷ []) ++ ys ≡ xs ++ y ∷ ys
  append_one [] y ys = refl
  append_one (x ∷ xs) y ys = ap (λ l. x ∷ l) (append_one xs y ys)

  append_nil : (xs : List (EntryRow D)) → xs ≡ xs ++ []
  append_nil [] = refl
  append_nil (x ∷ xs) = ap (λ l. x ∷ l) (append_nil xs)

module _ {D : Type 0} ⦃dec : Decimal D⦄ (env : Env) where
  entry_row_written :
      (t : String) (id : Uuid) (time : ℕ) (e : LedgerEntryInput D) (w : World D) (x : Entry D)
      → (wrap t (insert_entry_row env id time e) w).0 ≡ ok x
      → (row : EntryRow D) × ((wrap t (insert_entry_row env id time e) w).1.tx
          ≡ add_rows w.tx (row ∷ []))
        × IsRowOf env id e row
  unfolding insert_entry_row check_entry check_account run
  entry_row_written t id time e w x h = elim (Option-cases (env.parse e.account_id)) [
    | inl n ↦ absurd (ground arith)
    | inr (account, p) ↦ (
      row_of env (env.new_uuid w.tick) id account time e,
      ground arith,
      (p, refl, refl, refl, refl),
    )
  ]

  pub entries_written :
      (id : Uuid) (es : List (LedgerEntryInput D)) (time : ℕ) (w : World D) (xs : List (Entry D))
      → (insert_entries env id es time w).0 ≡ ok xs
      → (rows : List (EntryRow D)) × ((insert_entries env id es time w).1.tx ≡ add_rows w.tx rows)
        × AreRowsOf env id es rows
  unfolding insert_entries pure
  entries_written id [] time w xs h =
      ([], ap (λ l. record w.tx { entries = l }) (append_nil w.tx.entries), tt)
  entries_written id (e ∷ es) time w xs h =
      let (x, first, rest, end) =
        next_run (wrap "failed to insert entry" (insert_entry_row env id time e)) _ w xs h in
      let (ys, others, _, end2) = next_run (insert_entries env id es time) _ _ xs rest in
      let (row, row_written, row_is) = entry_row_written _ id time e w x first in
      let (rows, rows_written, rows_are) = entries_written id es time _ ys others in
      (
        row ∷ rows,
        ap (λ u. u.tx) (end ∙ end2)
            ∙ rows_written
            ∙ ap (λ d. add_rows d rows) row_written
            ∙ ap (λ l. record w.tx { entries = l }) (append_one w.tx.entries row rows),
        (row_is, rows_are),
      )
