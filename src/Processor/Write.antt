-- ===== src/Processor/Write.antt =====
-- Steps that the operations of internal/service/transaction share.
use double_entry_ledger_engi.Base.{ℕ, ⊤, String, Option, none, some, ok, ◌>>=◌, pure, raise}
use double_entry_ledger_engi.Domain.Errors.{ValidationError}
use double_entry_ledger_engi.Store.{Uuid, Env, Error, M, validation, no_rows, wrapped, wrap}
use double_entry_ledger_engi.Idempotency.{
  IdempotencyRecord, IdempotencyStatus, new, exists, check_and_reserve, record_success,
}

abbrev pub existing_of : IdempotencyRecord × IdempotencyStatus → Option Uuid
existing_of (r, exists) = some r.transaction_id
existing_of (r, new) = none

module _ {D : Type 0} where
  -- An error that is logged and dropped.
  unfoldable pub ignore : M D ⊤ → M D ⊤
  ignore m w = (ok tt, (m w).1)

  -- An error of the pure validation.
  unfoldable pub check : String → Option (ValidationError D) → M D ⊤
  check text none = pure tt
  check text (some e) = raise (wrapped text (validation e))

  -- `if err == pgx.ErrNoRows` before the error is wrapped.
  abbrev pub not_found : ValidationError D → String → Error D → Error D
  not_found missing text no_rows = validation missing
  not_found missing text e = wrapped text e

  module _ (env : Env) (ttl : ℕ) where
    -- After the commit: the key is recorded, and a failure is only logged.
    unfoldable pub record_key : Option String → Uuid → M D ⊤
    unfolding ignore
    record_key none id = pure tt
    record_key (some key) id = ignore (record_success env key id ttl)

    -- The transaction of a key that is in use.
    unfoldable pub check_key : Option String → M D (Option Uuid)
    check_key none = pure none
    check_key (some key) = do
      found ← wrap "failed to check idempotency" (check_and_reserve env key ttl)
      pure (existing_of found)
