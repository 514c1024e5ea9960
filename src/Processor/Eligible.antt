-- ===== src/Processor/Eligible.antt =====
-- Which transactions ReverseTransactionUUID reverses: a settled one, and that once.
use double_entry_ledger_engi.Idempotency.{
  check_and_reserve, has_key, select_row, check_row, check_found, new_record, delete_expired,
}
use double_entry_ledger_engi.Processor.States.{refused}
use double_entry_ledger_engi.Processor.Negation.{validate_reversal_eligibility_iff}
use double_entry_ledger_engi.Processor.Retried.{ledger, reverse-IsAtomic}
use double_entry_ledger_engi.Processor.Reversals.{map_err-OnlyReads, original-OnlyReads}
use double_entry_ledger_engi.Store.Reading.{next_ok, bind_ok, next_run}
use double_entry_ledger_engi.Domain.{Transaction}
use double_entry_ledger_engi.Processor.Write.{check_key}
use double_entry_ledger_engi.Processor.Reverse.{
  reverse_new, reverse_transaction_uuid, load_reversal, answer_reversal,
}
use double_entry_ledger_engi.Ledger.{
  scan_id, get_transaction_with_entries_for_update, query_header, query_entries, has_id,
}
use double_entry_ledger_engi.Domain.Validator.{TransactionValidator}
use double_entry_ledger_engi.Processor.{is_settled, ReversalRequest, used_key}
use double_entry_ledger_engi.Base.{
  Option, Result, String, ◌≡◌, true, ℕ, ⊤, lift, map_err, none, ok, some, arith, refl, ◌>>=◌, find,
  suc, Option-cases, err, inl, inr, ap, sym, ◌∙◌, subst, ◌<◌,
}
use double_entry_ledger_engi.Store.{
  Env, TransactionRow, run, Error, Uuid, M, World, wrap, begin, KeyRow,
}
use double_entry_ledger_engi.Decimal.{Decimal, DecimalLaws}

module _ {D : Type 0} (env : Env) where
  begin_ok :
      {A : Type 0} (t : String) (f : ⊤ → M D A) (w : World D) (a : A)
      → ((wrap t (begin env) >>= f) w).0 ≡ ok a
      → (f tt (record w { tx = w.db; tick = suc w.tick })).0 ≡ ok a
  unfolding run
  begin_ok t f w a h = ground arith

  map_err_ok :
      {A : Type 0} (g : Error D → Error D) (m : M D A) (w : World D) (a : A)
      → (map_err g m w).0 ≡ ok a
      → (m w).0 ≡ ok a
  unfolding run
  map_err_ok g m w a h = ground arith

  lift_ok :
      {A : Type 0} (r : Result (Error D) A) (w : World D) (a : A) → (lift r w).0 ≡ ok a → r ≡ ok a
  unfolding run
  lift_ok r w a h = h

unset : (env : Env) (o : Option Uuid) → scan_id env o ≡ none → o ≡ none
unset env none h = refl
unset env (some id) h = absurd cc

same_row :
    (r row : TransactionRow) (o : Option TransactionRow) → o ≡ some r → o ≡ some row → r ≡ row
same_row r row o h k = cc

-- A row that may be reversed.
abbrev pub IsReversible : TransactionRow → Type 0
IsReversible row = (is_settled row.state ≡ true) × (row.reversed_by ≡ none) × (row.reverses ≡ none)

-- The row of a key, where there is one, is expired for the clock of the lookup.
abbrev IsExpired : Env → ℕ → Option KeyRow → Type 0
IsExpired env tick none = Unit
IsExpired env tick (some row) = row.expires_at < env.now (suc tick)

-- There is no key, or it is not in the table of keys, or its row has expired.
abbrev pub IsUnused : {D : Type 0} → Env → Option String → World D → Type 0
IsUnused env none w = Unit
IsUnused env (some key) w = IsExpired env w.tick (find (has_key key) w.db.idempotency_keys)

module _ {D : Type 0} ⦃dec : Decimal D⦄ (laws : DecimalLaws D dec) (env : Env)
    (v : TransactionValidator) (ttl : ℕ) where
  header_ok :
      (id : Uuid) (w : World D) (txn : Transaction D)
      → (get_transaction_with_entries_for_update env id w).0 ≡ ok txn
      → (row : TransactionRow) × (find (has_id id) w.tx.transactions ≡ some row)
        × (txn.state ≡ row.state)
        × (txn.reversed_by_transaction_id ≡ scan_id env row.reversed_by)
        × (txn.reverses_transaction_id ≡ scan_id env row.reverses)
  unfolding get_transaction_with_entries_for_update query_header query_entries run
  header_ok id w txn h = elim (Option-cases (find (has_id id) w.tx.transactions)) [
    | inl n ↦ absurd (ground arith)
    | inr (row, e) ↦ (row, e, ground arith, ground arith, ground arith)
  ]

  -- A reversal that is written found its original settled, not reversed and not itself a reversal.
  pub reverse_new-IsReversible :
      (original : Uuid) (req : ReversalRequest) (w : World D) (t : Transaction D)
      → (reverse_new env v ttl original req w).0 ≡ ok t
      → (row : TransactionRow) × (find (has_id original) w.db.transactions ≡ some row)
        × IsReversible row
  unfolding reverse_new load_reversal
  reverse_new-IsReversible original req w t h =
      let (r, u, loaded, _) =
        next_ok (load_reversal env v ttl original req) _ _ t (begin_ok env _ _ w t h) in
      let (txn, w1, queried, _, h1) =
        bind_ok _ _ _ r
          (map_err-OnlyReads laws env v ttl _ _ (original-OnlyReads laws env v ttl original))
          loaded in
      let (_, w2, eligible, _) = next_ok _ _ w1 r h1 in
      let (row, found, state_is, by_is, of_is) =
        header_ok original _ txn (map_err_ok env _ _ _ txn queried) in
      let (settled_is, by, reverses) =
        (validate_reversal_eligibility_iff txn).0 (lift_ok env _ w1 tt eligible) in
      (
        row,
        found,
        (
          ap is_settled (sym state_is) ∙ settled_is,
          unset env _ (sym by_is ∙ by),
          unset env _ (sym of_is ∙ reverses),
        ),
      )

  unused_ok :
      (key : Option String) (w : World D) (o : Option Uuid)
      → IsUnused env key w
      → (check_key env ttl key w).0 ≡ ok o
      → (o ≡ none) × ((check_key env ttl key w).1.db.transactions ≡ w.db.transactions)
  unfolding check_key check_and_reserve select_row check_row check_found new_record delete_expired
      run
  unused_ok none w o unused h = (cc, refl)
  unused_ok (some key) w o unused h =
      elim (Option-cases (find (has_key key) w.db.idempotency_keys)) [
        | inl n ↦ (ground arith, ground arith)
        | inr (row, e) ↦
            let late : row.expires_at < env.now (suc w.tick) = rw e at unused in
            (ground arith, ground arith)
      ]

  -- A transaction that is in the table and may not be reversed, such as one that has been reversed
  -- before, is not reversed by a request without a key or whose key is new or has expired: the call
  -- returns an error and leaves the ledger as it was.
  pub not_reversible-final :
      (original : Uuid) (req : ReversalRequest) (w : World D) (row : TransactionRow)
      → find (has_id original) w.db.transactions ≡ some row
      → ¬ (IsReversible row)
      → IsUnused env (used_key req.idempotency_key) w
      → ((e : Error D) × ((reverse_transaction_uuid env v ttl original req w).0 ≡ err e))
        × (ledger (reverse_transaction_uuid env v ttl original req w).1.db ≡ ledger w.db)
  unfolding reverse_transaction_uuid answer_reversal
  not_reversible-final original req w row found other unused =
      let e =
        refused env (reverse_transaction_uuid env v ttl original req w).0 (IsReversible row)
          (λ t h.
            let (o, checked, rest, _) =
              next_run (check_key env ttl (used_key req.idempotency_key))
                (answer_reversal env v ttl original req) w t h in
            let (no_key, rows_stay) = unused_ok (used_key req.idempotency_key) w o unused checked in
            let (r, found_r, reversible_r) = reverse_new-IsReversible original req _ t (
              subst
                (λ k.
                  (answer_reversal env v ttl original req k
                    (check_key env ttl (used_key req.idempotency_key) w).1).0
                  ≡ ok t)
                no_key rest) in
            subst IsReversible
              (same_row r row _ found_r (ap (find (has_id original)) rows_stay ∙ found))
              reversible_r)
          other in
      (e, (reverse-IsAtomic env v ttl original req).undone w e.0 e.1)
