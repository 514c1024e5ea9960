-- ===== src/Idempotency.antt =====
-- internal/infrastructure/postgres/idempotency_repository.go. Its statements go through the pool, so
-- each is committed by itself.
pub mod Keys
use double_entry_ledger_engi.Base.{
  ℕ, ⊤, ◌+◌, Bool, true, false, String, Option, none, some, List, [], ◌∷◌, ◌++◌, Result, ok, err,
  next, ◌>>=◌, ◌>>◌, pure, raise, ◌==◌, ltb, same, if◌then◌else◌, filter, find, any, not, map_err,
  ◌&&◌,
}
use double_entry_ledger_engi.Store.{
  Uuid, KeyRow, TransactionRow, Db, World, Error, Env, M, pool, reads, write_pool, call, now, wrap,
  driver, pg_error, Fault, no_rows, other, message, select_key, delete_key, insert_key,
}
use double_entry_ledger_engi.Ledger.{has_id, foreign_key_violation}

pub record IdempotencyRecord : Type 0 where
  pub idempotency_key : String
  pub transaction_id : Uuid
  pub created_at : ℕ
  pub expires_at : ℕ

pub data IdempotencyStatus : Type 0 where
  new exists : IdempotencyStatus

-- WHERE idempotency_key = $1
abbrev pub has_key : String → KeyRow → Bool
has_key key row = same row.key key

abbrev pub record_of : KeyRow → IdempotencyRecord
record_of row = record {
  idempotency_key = row.key;
  transaction_id = row.transaction_id;
  created_at = row.created_at;
  expires_at = row.expires_at;
}

abbrev pub unexpired : String → ℕ → KeyRow → Bool
unexpired key time row = has_key key row && ltb time row.expires_at

module _ {D : Type 0} (env : Env) where
  -- A fresh record, with the nil UUID; the clock is read for each of the two times.
  unfoldable pub new_record : String → ℕ → M D (IdempotencyRecord × IdempotencyStatus)
  new_record key ttl = do
    created_at ← now env
    later ← now env
    pure (
      record {
        idempotency_key = key;
        transaction_id = 0;
        created_at = created_at;
        expires_at = later + ttl;
      },
      new,
    )

  -- A failure of the DELETE is logged, and the call goes on.
  unfoldable pub delete_expired : String → M D ⊤
  delete_expired key w = elim (call env delete_key w).0 [
    | ok _ ↦
        write_pool
          (λ db. record db {
            idempotency_keys = filter (λ row. not (has_key key row)) db.idempotency_keys;
          })
          (call env delete_key w).1
    | err e ↦ (ok tt, (call env delete_key w).1)
  ]

  unfoldable pub check_found : String → ℕ → KeyRow → M D (IdempotencyRecord × IdempotencyStatus)
  unfolding delete_expired new_record
  check_found key ttl row = do
    time ← now env
    if ltb row.expires_at time
        then (delete_expired key >> new_record key ttl)
        else pure (record_of row, exists)

  unfoldable pub check_row :
      String → ℕ → Option KeyRow → M D (IdempotencyRecord × IdempotencyStatus)
  unfolding new_record check_found
  check_row key ttl none = new_record key ttl
  check_row key ttl (some row) = check_found key ttl row

  -- An empty result is the branch of a new key; every other failure is returned.
  unfoldable pub select_row : String → M D (Option KeyRow)
  select_row key = do
    wrap "failed to query idempotency key" (call env select_key)
    reads pool (λ db. find (has_key key) db.idempotency_keys)

  unfoldable pub check_and_reserve : String → ℕ → M D (IdempotencyRecord × IdempotencyStatus)
  unfolding select_row check_row
  check_and_reserve key ttl = do row ← select_row key; check_row key ttl row

  abbrev pub insert_failed : Uuid → Error D → Error D
  insert_failed id (driver (pg_error code)) =
      if same code foreign_key_violation
      then message "transaction does not exist" (env.to_string id)
      else Error.wrapped "failed to record idempotency success" (driver (pg_error code))
  insert_failed id e = Error.wrapped "failed to record idempotency success" e

  -- The branch of ON CONFLICT DO NOTHING: no row was affected.
  unfoldable pub compare_existing : String → Uuid → Option KeyRow → M D ⊤
  compare_existing key id none =
      raise (Error.wrapped "failed to query existing idempotency key" no_rows)
  compare_existing key id (some row) =
      if row.transaction_id == id
      then pure tt
      else raise (message "idempotency key already associated with a different transaction" "")

  -- The foreign key of the INSERT, checked on the committed transactions.
  unfoldable pub insert_key_row : String → Uuid → ℕ → ℕ → M D Bool
  insert_key_row key id created_at expires_at = do
    call env insert_key
    taken ← reads pool (λ db. any (has_key key) db.idempotency_keys)
    known ← reads pool (λ db. any (has_id id) db.transactions)
    if taken
        then pure false
        else if known
        then (do
          write_pool (λ db. record db {
            idempotency_keys =
                db.idempotency_keys
                ++ record {
                  key = key;
                  transaction_id = id;
                  created_at = created_at;
                  expires_at = expires_at;
                }
                  ∷ [];
          })
          pure true)
        else raise (driver (pg_error foreign_key_violation))

  unfoldable pub record_success : String → Uuid → ℕ → M D ⊤
  record_success key id ttl = do
    time ← now env
    inserted ← map_err (insert_failed id) (insert_key_row key id time (time + ttl))
    if inserted then pure tt else (do
      wrap "failed to query existing idempotency key" (call env select_key)
      row ← reads pool (λ db. find (has_key key) db.idempotency_keys)
      compare_existing key id row)

  abbrev pub existing : String → Option KeyRow → M D Uuid
  existing key none = raise (message "idempotency key not found or expired" key)
  existing key (some row) = pure row.transaction_id

  -- NOW() is read by the database.
  unfoldable pub get_existing_result : String → M D Uuid
  get_existing_result key = do
    time ← now env
    wrap "failed to get existing result" (call env select_key)
    row ← reads pool (λ db. find (unexpired key time) db.idempotency_keys)
    existing key row
