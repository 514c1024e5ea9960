-- ===== src/Processor/Succeeds.antt =====
-- executePostTransaction of internal/service/transaction/processor_execute.go, when no call fails.
use double_entry_ledger_engi.Processor.Posted.{opened_tx}
use double_entry_ledger_engi.Processor.Execute.{execute_post_transaction, write_post}
use double_entry_ledger_engi.Processor.Validate.{validate_accounts_and_balances_with_locking}
use double_entry_ledger_engi.Processor.{
  PostTransactionRequest, entry_requests_to_ledger_inputs, settled_time,
}
use double_entry_ledger_engi.Processor.Write.{record_key, ignore}
use double_entry_ledger_engi.Base.{
  List, String, ◌≡◌, ok, some, ℕ, All, any, suc, ◌==◌, ◌∷◌, refl, subst, true, false, sym, [], pure,
  arith, Option, none,
}
use double_entry_ledger_engi.Store.Success.{
  IsReliable, Succeeds, new_id, bind-Succeeds, pure-Succeeds, begin-Succeeds, wrap-Succeeds,
  emit-Succeeds, new_uuid-Succeeds, now-Succeeds, commit-Succeeds,
}
use double_entry_ledger_engi.Ledger.{
  LedgerEntryInput, insert_entry_row, insert_entries, check_entry, check_account, entry_of,
  insert_transaction_row, insert_row, clashes,
}
use double_entry_ledger_engi.Store.{
  Env, run, Uuid, World, AccountRow, insert_entry, wrap, begin, insert_transaction, new_uuid, now,
}
use double_entry_ledger_engi.Decimal.{Decimal}

module _ {D : Type 0} ⦃dec : Decimal D⦄ (env : Env) where
  -- What the constraints of `entries` ask of a row, with the accounts of the table.
  abbrev pub IsInsertable : List AccountRow → LedgerEntryInput D → Type 0
  IsInsertable accounts e =
      (id : Uuid) × (env.parse e.account_id ≡ some id)
      × (any (λ (a : AccountRow). a.account_id == id) accounts ≡ true)
      × (dec.is_negative e.amount ≡ false)

  insert_entry_row-Succeeds :
      (t : String) (id : Uuid) (time : ℕ) (e : LedgerEntryInput D) (w : World D)
      → IsReliable env
      → IsInsertable w.tx.accounts e
      → Succeeds (wrap t (insert_entry_row env id time e)) w
        × ((wrap t (insert_entry_row env id time e) w).1.tx.accounts ≡ w.tx.accounts)
  unfolding insert_entry_row check_entry check_account run
  insert_entry_row-Succeeds t id time e w reliable (account, parsed, known, nonneg) =
      let no_fault = reliable (suc w.tick) insert_entry in
      (
        (entry_of env (env.new_uuid w.tick) id time e, rw parsed (ground arith)),
        rw parsed (ground arith),
      )

  insert_entries-Succeeds :
      (id : Uuid) (es : List (LedgerEntryInput D)) (time : ℕ) (w : World D)
      → IsReliable env
      → All (IsInsertable w.tx.accounts) es
      → Succeeds (insert_entries env id es time) w
  unfolding insert_entries
  insert_entries-Succeeds id [] time w reliable h = pure-Succeeds [] w
  insert_entries-Succeeds id (e ∷ es) time w reliable (first, others) =
      let (done, kept) =
        insert_entry_row-Succeeds "failed to insert entry" id time e w reliable first in
      bind-Succeeds _ _ w done λ x _.
        bind-Succeeds _ _ _
          (insert_entries-Succeeds id es time _ reliable
            (subst (λ accounts. All (IsInsertable accounts) es) (sym kept) others))
          λ xs _. pure-Succeeds (x ∷ xs) _

  insert_transaction-Succeeds :
      (t : String) (req : PostTransactionRequest D) (id : Uuid) (time : ℕ) (w : World D)
      → IsReliable env
      → any (clashes id req.idempotency_key) w.tx.transactions ≡ false
      → Succeeds
          (wrap t (
            insert_transaction_row env id req.idempotency_key req.state time
              (settled_time req.state time)
              req.metadata))
          w
        × ((wrap t
              (insert_transaction_row env id req.idempotency_key req.state time
                (settled_time req.state time)
                req.metadata)
              w).1.tx.accounts
            ≡ w.tx.accounts)
  unfolding insert_transaction_row insert_row run
  insert_transaction-Succeeds t req id time w reliable free =
      let no_fault = reliable w.tick insert_transaction in ((tt, ground arith), ground arith)

  -- A failure to record the key is dropped.
  record_key-Succeeds :
      (ttl : ℕ) (key : Option String) (id : Uuid) (w : World D)
      → Succeeds (record_key env ttl key id) w
  unfolding record_key ignore pure
  record_key-Succeeds ttl none id w = (tt, refl)
  record_key-Succeeds ttl (some key) id w = (tt, refl)

  -- The tables at the begin of a transaction.
  abbrev pub begun : World D → World D
  begun w = record w { tx = w.db; tick = suc w.tick }

  -- The request may be posted: its accounts pass their checks and are rows of the table, and neither
  -- the UUID that comes after these checks nor the key is one of a transaction.
  pub record IsReady (req : PostTransactionRequest D) (w : World D) : Type 0 where
    pub checked : Succeeds (validate_accounts_and_balances_with_locking env req.entries) (begun w)
    pub insertable : All (IsInsertable w.db.accounts) (entry_requests_to_ledger_inputs req.entries)
    pub free :
        any
          (clashes
            (env.new_uuid
              (validate_accounts_and_balances_with_locking env req.entries (begun w)).1.tick)
            req.idempotency_key)
          w.db.transactions
        ≡ false

  write_post-Succeeds :
      (ttl : ℕ) (req : PostTransactionRequest D) (id : Uuid) (time : ℕ) (w : World D)
      → IsReliable env
      → any (clashes id req.idempotency_key) w.tx.transactions ≡ false
      → All (IsInsertable w.tx.accounts) (entry_requests_to_ledger_inputs req.entries)
      → Succeeds (write_post env ttl req id time) w
  unfolding write_post
  write_post-Succeeds ttl req id time w reliable free insertable =
      let (inserted, kept) = insert_transaction-Succeeds _ req id time w reliable free in
      bind-Succeeds _ _ w inserted λ _ _.
        bind-Succeeds _ _ _
          (wrap-Succeeds _ _ _ (
            insert_entries-Succeeds id _ time _ reliable (
              subst
                (λ accounts.
                  All (IsInsertable accounts) (entry_requests_to_ledger_inputs req.entries))
                (sym kept) insertable)))
          λ entries _.
            bind-Succeeds _ _ _ (emit-Succeeds env _ _ _ reliable) λ _ _. pure-Succeeds _ _

  -- After the checks the rows can be written.
  ready-Succeeds :
      (ttl : ℕ) (req : PostTransactionRequest D) (w : World D) (id : Uuid) (time : ℕ) (v : World D)
      → IsReliable env
      → IsReady req w
      → env.new_uuid (validate_accounts_and_balances_with_locking env req.entries (begun w)).1.tick
        ≡ id
      → v.tx ≡ w.db
      → Succeeds (write_post env ttl req id time) v
  ready-Succeeds ttl req w id time v reliable ready id_is same_tables =
      write_post-Succeeds ttl req id time v reliable
        (subst (λ db. any (clashes id req.idempotency_key) db.transactions ≡ false)
          (sym same_tables)
          (subst (λ n. any (clashes n req.idempotency_key) w.db.transactions ≡ false) id_is
            ready.free))
        (subst (λ db. All (IsInsertable db.accounts) (entry_requests_to_ledger_inputs req.entries))
          (sym same_tables) ready.insertable)

  new_id_begun :
      (t : String) (req : PostTransactionRequest D) (w : World D) (id : Uuid)
      → (new_uuid env
          (validate_accounts_and_balances_with_locking env req.entries
            (wrap t (begin env) w).1).1).0
        ≡ ok id
      → env.new_uuid (validate_accounts_and_balances_with_locking env req.entries (begun w)).1.tick
        ≡ id
  unfolding run
  new_id_begun t req w id h =
      new_id env (validate_accounts_and_balances_with_locking env req.entries (begun w)).1 id h

  checked_begun :
      (t : String) (req : PostTransactionRequest D) (w : World D)
      → IsReady req w
      → Succeeds
          (validate_accounts_and_balances_with_locking env req.entries)
          (wrap t (begin env) w).1
  unfolding run
  checked_begun t req w ready = ready.checked

  -- Where no call fails, a request that may be posted is posted: executePostTransaction returns the
  -- transaction.
  pub execute_post_transaction-Succeeds :
      (ttl : ℕ) (req : PostTransactionRequest D) (w : World D)
      → IsReliable env
      → IsReady req w
      → Succeeds (execute_post_transaction env ttl req) w
  unfolding execute_post_transaction validate_accounts_and_balances_with_locking
  execute_post_transaction-Succeeds ttl req w reliable ready =
      bind-Succeeds _ _ w (begin-Succeeds env _ w reliable) λ _ _.
        bind-Succeeds _ _ _ (checked_begun _ req w ready) λ _ _.
          bind-Succeeds (new_uuid env) _ _ (new_uuid-Succeeds env _) λ id id_is.
            bind-Succeeds (now env) _ _ (now-Succeeds env _) λ time _.
              bind-Succeeds _ _ _
                (ready-Succeeds ttl req w id time _ reliable ready (new_id_begun _ req w id id_is)
                  (opened_tx env "failed to begin transaction" req.entries w))
                λ result _. bind-Succeeds _ _ _ (commit-Succeeds env _ _ reliable) λ _ _.
                  bind-Succeeds _ _ _ (record_key-Succeeds ttl _ id _) λ _ _. pure-Succeeds result _
