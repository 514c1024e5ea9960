-- ===== src/Idempotency/Keys.antt =====
-- What the idempotency keys promise: a recorded key is found again, and never moves to another
-- transaction.
use double_entry_ledger_engi.Base.{
  String, ℕ, ◌≡◌, find, ok, some, arith, Option-cases, any-find, inr, ap, ◌∙◌, inl, ◌+◌,
  find-append, same_iff, refl,
}
use double_entry_ledger_engi.Idempotency.{record_success, insert_key_row, compare_existing, has_key}
use double_entry_ledger_engi.Store.{Env, run, Uuid, World, KeyRow, Db}

module _ {D : Type 0} (env : Env) where
  -- A key in the table is never given another transaction: recording it again leaves the table, and
  -- fails unless it is for the same transaction.
  pub record_success-taken :
      (key : String) (id : Uuid) (ttl : ℕ) (w : World D) (row : KeyRow)
      → find (has_key key) w.db.idempotency_keys ≡ some row
      → ((record_success env key id ttl w).1.db ≡ w.db)
        × ((record_success env key id ttl w).0 ≡ ok tt → row.transaction_id ≡ id)
  unfolding record_success insert_key_row compare_existing run
  record_success-taken key id ttl w row h = (
    ground (arith, any-find (has_key key) w.db.idempotency_keys),
    λ k. ground (arith, any-find (has_key key) w.db.idempotency_keys),
  )

  -- A key that was recorded is in the table, with the transaction it was recorded for.
  pub record_success-find :
      (key : String) (id : Uuid) (ttl : ℕ) (w : World D)
      → (record_success env key id ttl w).0 ≡ ok tt
      → (row : KeyRow) × (find (has_key key) (record_success env key id ttl w).1.db.idempotency_keys
          ≡ some row)
        × (row.transaction_id ≡ id)
  unfolding record_success insert_key_row compare_existing run
  record_success-find key id ttl w h =
      elim (Option-cases (find (has_key key) w.db.idempotency_keys)) [
        | inr (row, found) ↦
            let (stays, bound) = record_success-taken key id ttl w row found in
            (row, ap (λ (db : Db D). find (has_key key) db.idempotency_keys) stays ∙ found, bound h)
        | inl missing ↦
            let row : KeyRow = record {
              key = key;
              transaction_id = id;
              created_at = env.now w.tick;
              expires_at = env.now w.tick + ttl;
            } in
            (
              row,
              ground (
                arith,
                any-find (has_key key) w.db.idempotency_keys,
                find-append (has_key key) w.db.idempotency_keys row missing
                    ((same_iff key key).1 refl),
              ),
              refl,
            )
      ]
