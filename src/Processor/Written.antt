-- ===== src/Processor/Written.antt =====
-- What the statements of a posting add to the sum of all entries of the ledger.
use double_entry_ledger_engi.Processor.Retried.{record_key-KeepsDb}
use double_entry_ledger_engi.Processor.Frames.{validate_accounts_for_post-OnlyReads}
use double_entry_ledger_engi.Processor.Write.{record_key}
use double_entry_ledger_engi.Processor.{PostTransactionRequest, entry_requests_to_ledger_inputs}
use double_entry_ledger_engi.Store.Frame.{KeepsDb, bind-KeepsDb, pure-KeepsDb}
use double_entry_ledger_engi.Processor.Validate.{validate_accounts_and_balances_with_locking}
use double_entry_ledger_engi.Processor.Execute.{execute_post_transaction, write_post}
use double_entry_ledger_engi.Balance.Sums.{row_sum-append}
use double_entry_ledger_engi.Domain.Validator.Balanced.{signed}
use double_entry_ledger_engi.Store.Reading.{
  OnlyReads, raise-OnlyReads, call-OnlyReads, only_reads, pure-OnlyReads, reads-OnlyReads,
  now-OnlyReads,
}
use double_entry_ledger_engi.Processor.Sums.{
  Adds, open_tx, input_sum, then-Adds, OnlyReads-Adds, new_uuid-Adds, first-Adds, bind-Adds,
  write_tx-Adds, wrap-Adds, total, reads_then-Adds, if-Adds, raise-Adds, committed, begin-Adds,
  emit-Adds, commit-Adds, KeepsDb-Adds, ledger-total,
}
use double_entry_ledger_engi.Base.{
  List, Option, ℕ, some, none, ◌∷◌, ◌∙◌, ap, String, [], sym, ◌>>◌, pure, true,
}
use double_entry_ledger_engi.Ledger.{
  check_account, insert_entries, insert_entry_row, insert_row, LedgerEntryInput, check_entry,
  insert_transaction_row,
}
use double_entry_ledger_engi.Store.{Env, TransactionRow, Uuid, in_tx}
use double_entry_ledger_engi.Decimal.{Decimal, DecimalLaws}

module _ {D : Type 0} ⦃dec : Decimal D⦄ (laws : DecimalLaws D dec) (env : Env) where
  open laws use {Number, value, nil, plus, negate, plus_assoc, plus-nil}

  pub row-Adds : (row : TransactionRow) → Adds laws open_tx open_tx nil (insert_row env row)
  unfolding insert_row
  row-Adds row = reads_then-Adds laws open_tx nil _ _ (call-OnlyReads env _) λ _.
      reads_then-Adds laws open_tx nil _ _ (reads-OnlyReads in_tx _) λ taken.
        if-Adds laws _ _ _ taken _ _ (raise-Adds laws _ _ _ _)
          (write_tx-Adds laws nil _ (λ db. sym (plus-nil _)))

  account-OnlyReads : (e : LedgerEntryInput D) (o : Option Uuid) → OnlyReads (check_account env e o)
  unfolding check_account
  account-OnlyReads e none = raise-OnlyReads _
  account-OnlyReads e (some id) = search only_reads depth 10

  entry_row-Adds :
      (id : Uuid) (time : ℕ) (e : LedgerEntryInput D)
      → Adds laws open_tx open_tx
          (signed laws e.entry_type e.amount)
          (insert_entry_row env id time e)
  unfolding insert_entry_row check_entry
  entry_row-Adds id time e =
      then-Adds laws open_tx open_tx open_tx _ _ _ (new_uuid-Adds laws env) λ entry_id.
        reads_then-Adds laws open_tx _ _ _ (call-OnlyReads env _) λ _.
          reads_then-Adds laws open_tx _ _ _ (account-OnlyReads e _) λ account.
            first-Adds laws open_tx open_tx open_tx _ _ _
              (write_tx-Adds laws _ _
                (λ db. row_sum-append laws db.entries _ ∙ ap (plus (total laws db)) (plus-nil _)))
              λ _. OnlyReads-Adds laws _ (pure-OnlyReads _)

  pub entries-Adds :
      (id : Uuid) (es : List (LedgerEntryInput D)) (time : ℕ)
      → Adds laws open_tx open_tx (input_sum laws es) (insert_entries env id es time)
  unfolding insert_entries
  entries-Adds id [] time = OnlyReads-Adds laws _ (pure-OnlyReads [])
  entries-Adds id (e ∷ es) time =
      bind-Adds laws open_tx open_tx open_tx _ _ _ _
        (wrap-Adds laws open_tx open_tx _ _ _ (entry_row-Adds id time e))
        λ entry.
          first-Adds laws open_tx open_tx open_tx _ _ _ (entries-Adds id es time)
            λ entries. OnlyReads-Adds laws _ (pure-OnlyReads _)

  write_post-Adds :
      (ttl : ℕ) (req : PostTransactionRequest D) (id : Uuid) (posted_at : ℕ)
      → Adds laws open_tx open_tx
          (input_sum laws (entry_requests_to_ledger_inputs req.entries))
          (write_post env ttl req id posted_at)
  unfolding write_post insert_transaction_row
  write_post-Adds ttl req id posted_at =
      then-Adds laws open_tx open_tx open_tx _ _ _
        (wrap-Adds laws open_tx open_tx _ _ _ (row-Adds _))
        λ _.
          first-Adds laws open_tx open_tx open_tx _ _ _
            (wrap-Adds laws open_tx open_tx _ _ _ (entries-Adds id _ posted_at))
            λ entries.
              first-Adds laws open_tx open_tx open_tx _ _ _
                (wrap-Adds laws open_tx open_tx _ _ _ (emit-Adds laws env _))
                λ _. OnlyReads-Adds laws _ (pure-OnlyReads _)

  pub recorded-KeepsDb :
      {A : Type 0} (ttl : ℕ) (key : Option String) (id : Uuid) (a : A)
      → KeepsDb (total laws) (record_key env ttl key id >> pure a)
  recorded-KeepsDb ttl key id a =
      bind-KeepsDb (total laws) _ _ (ledger-total laws _ (record_key-KeepsDb env ttl key id))
        λ _. pure-KeepsDb (total laws) a

  pub execute-Adds :
      (ttl : ℕ) (req : PostTransactionRequest D)
      → Adds laws committed committed
          (input_sum laws (entry_requests_to_ledger_inputs req.entries))
          (execute_post_transaction env ttl req)
  unfolding execute_post_transaction validate_accounts_and_balances_with_locking
  execute-Adds ttl req =
      then-Adds laws committed open_tx committed _ _ _ (begin-Adds laws env _) λ _.
        reads_then-Adds laws committed _ _ _
          (validate_accounts_for_post-OnlyReads env true req.entries)
          λ _. then-Adds laws open_tx open_tx committed _ _ _ (new_uuid-Adds laws env) λ id.
            reads_then-Adds laws committed _ _ _ (now-OnlyReads env) λ posted_at.
              first-Adds laws open_tx open_tx committed _ _ _ (write_post-Adds ttl req id posted_at)
                λ result.
                  then-Adds laws open_tx committed committed _ _ _ (commit-Adds laws env _)
                    λ _. KeepsDb-Adds laws _ (recorded-KeepsDb ttl _ id result)
