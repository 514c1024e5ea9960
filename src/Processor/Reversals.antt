-- ===== src/Processor/Reversals.antt =====
-- Reversing leaves the sum of all entries of the ledger as it was.
use double_entry_ledger_engi.Ledger.Frames.{get_transaction_with_entries-KeepsDb}
use double_entry_ledger_engi.Processor.Written.{row-Adds, entries-Adds, recorded-KeepsDb}
use double_entry_ledger_engi.Processor.Retried.{reverse-IsAtomic, check_key-KeepsDb}
use double_entry_ledger_engi.Processor.Conserved.{keeps_total, valid_request, check_ok}
use double_entry_ledger_engi.Processor.Frames.{validate_accounts_for_post-OnlyReads}
use double_entry_ledger_engi.Processor.Sums.{
  Adds, committed, total, open_tx, then-Adds, KeepsDb-Adds, begin-Adds, input_sum, ledger-total,
  when-Adds, OnlyReads-Adds, wrap-Adds, equal_Adds, first-Adds, new_uuid-Adds, reads_then-Adds,
  commit-Adds, write_tx-Adds, emit-Adds,
}
use double_entry_ledger_engi.Domain.Errors.{ValidationError}
use double_entry_ledger_engi.Store.Reading.{
  OnlyReads, only_reads, pure-OnlyReads, raise-OnlyReads, bind_ok, call-OnlyReads, now-OnlyReads,
}
use double_entry_ledger_engi.Processor.Validate.{validate_accounts_and_balances}
use double_entry_ledger_engi.Processor.{
  ReversalRequest, PostTransactionRequest, entry_requests_to_ledger_inputs,
}
use double_entry_ledger_engi.Ledger.{
  get_transaction_with_entries_for_update, query_header, insert_reversal_row, query_entries,
  mark_original_transaction_reversed, found, update_transaction_row,
}
use double_entry_ledger_engi.Processor.Reverse.{
  answer_reversal, load_reversal, reverse_transaction_uuid, write_reversal, reverse_new,
  reversal_request,
}
use double_entry_ledger_engi.Processor.Write.{check}
use double_entry_ledger_engi.Base.{
  ℕ, Option, Result, String, lift, map_err, refl, some, ◌≡◌, none, ok, false, sym, pure, subst,
}
use double_entry_ledger_engi.Domain.Validator.{TransactionValidator}
use double_entry_ledger_engi.Store.{Env, Uuid, run, Error, Runner, TransactionRow, M, World, pool}
use double_entry_ledger_engi.Decimal.{Decimal, DecimalLaws}

module _ {D : Type 0} ⦃dec : Decimal D⦄ (laws : DecimalLaws D dec) (env : Env)
    (v : TransactionValidator) (ttl : ℕ) where
  open laws use {Number, nil, plus, plus-nil}

  found-OnlyReads : (o : Option TransactionRow) → OnlyReads {D = D} (found env o)
  found-OnlyReads none = raise-OnlyReads _
  found-OnlyReads (some row) = pure-OnlyReads _

  header-OnlyReads : (r : Runner) (id : Uuid) → OnlyReads {D = D} (query_header env r id)
  unfolding query_header
  header-OnlyReads r id = search (only_reads, found-OnlyReads) depth 10

  pub original-OnlyReads :
      (id : Uuid) → OnlyReads {D = D} (get_transaction_with_entries_for_update env id)
  unfolding get_transaction_with_entries_for_update query_entries
  original-OnlyReads id = search (only_reads, header-OnlyReads) depth 14

  pub map_err-OnlyReads :
      {A : Type 0} (g : Error D → Error D) (m : M D A) → OnlyReads m → OnlyReads (map_err g m)
  unfolding run
  map_err-OnlyReads g m k = record { same_tables = λ w. k.same_tables w }

  pub lift-OnlyReads : {A : Type 0} (r : Result (Error D) A) → OnlyReads (lift r)
  unfolding run
  lift-OnlyReads r = record { same_tables = λ w. (refl, refl) }

  check-OnlyReads : (t : String) (o : Option (ValidationError D)) → OnlyReads (check t o)
  unfolding check
  check-OnlyReads t none = pure-OnlyReads tt
  check-OnlyReads t (some e) = raise-OnlyReads _

  load-OnlyReads :
      (id : Uuid) (req : ReversalRequest) → OnlyReads {D = D} (load_reversal env v ttl id req)
  unfolding load_reversal validate_accounts_and_balances
  load-OnlyReads id req =
      search
        (
          only_reads,
          original-OnlyReads,
          map_err-OnlyReads,
          lift-OnlyReads,
          check-OnlyReads,
          validate_accounts_for_post-OnlyReads env,
        )
        depth 14

  pure_ok :
      {A : Type 0} (a r : A) (w : World D) → (pure {S = World D} {E = Error D} a w).0 ≡ ok r → a ≡ r
  unfolding run
  pure_ok a r w h = cc

  -- A reversal that was loaded has passed the validation, so its amounts cancel.
  load_reversal_ok :
      (id : Uuid) (req : ReversalRequest) (w : World D) (r : PostTransactionRequest D)
      → (load_reversal env v ttl id req w).0 ≡ ok r
      → input_sum laws (entry_requests_to_ledger_inputs r.entries) ≡ nil
  unfolding load_reversal validate_accounts_and_balances
  load_reversal_ok id req w r h =
      let (txn, w1, _, _, h1) = bind_ok _ _ w r (map_err-OnlyReads _ _ (original-OnlyReads id)) h in
      let (_, w2, _, _, h2) = bind_ok _ _ w1 r (lift-OnlyReads _) h1 in
      let (_, w3, checked, _, h3) = bind_ok _ _ w2 r (check-OnlyReads _ _) h2 in
      let (_, w4, _, _, h4) =
        bind_ok _ _ w3 r (validate_accounts_for_post-OnlyReads env false _) h3 in
      subst
        (λ (x : PostTransactionRequest D).
          input_sum laws (entry_requests_to_ledger_inputs x.entries) ≡ nil)
        (pure_ok _ r w4 h4)
        (valid_request laws env v ttl (reversal_request txn req)
          (check_ok laws env v ttl _ _ w2 checked))

  write_reversal-Adds :
      (original : Uuid) (req : PostTransactionRequest D) (id : Uuid) (posted_at : ℕ)
      → Adds laws open_tx open_tx
          (input_sum laws (entry_requests_to_ledger_inputs req.entries))
          (write_reversal env v ttl original req id posted_at)
  unfolding write_reversal insert_reversal_row mark_original_transaction_reversed
      update_transaction_row
  write_reversal-Adds original req id posted_at =
      then-Adds laws open_tx open_tx open_tx _ _ _
        (wrap-Adds laws open_tx open_tx _ _ _ (row-Adds laws env _))
        λ _.
          first-Adds laws open_tx open_tx open_tx _ _ _
            (wrap-Adds laws open_tx open_tx _ _ _ (entries-Adds laws env id _ posted_at))
            λ entries.
              then-Adds laws open_tx open_tx open_tx _ _ _
                (wrap-Adds laws open_tx open_tx _ _ _ (
                  reads_then-Adds laws open_tx nil _ _ (call-OnlyReads env _)
                    λ _. write_tx-Adds laws nil _ (λ db. sym (plus-nil _))))
                λ _.
                  first-Adds laws open_tx open_tx open_tx _ _ _
                    (wrap-Adds laws open_tx open_tx _ _ _ (emit-Adds laws env _))
                    λ _. OnlyReads-Adds laws _ (pure-OnlyReads _)

  answer-Adds :
      (original : Uuid) (req : ReversalRequest) (o : Option Uuid)
      → Adds laws committed committed nil (answer_reversal env v ttl original req o)
  unfolding answer_reversal reverse_new
  answer-Adds original req none =
      then-Adds laws committed open_tx committed _ _ _ (begin-Adds laws env _) λ _.
        when-Adds laws (λ r. input_sum laws (entry_requests_to_ledger_inputs r.entries) ≡ nil)
          open_tx open_tx committed _ _ _ (OnlyReads-Adds laws _ (load-OnlyReads original req))
          (load_reversal_ok original req)
          λ reversal zero_sum. equal_Adds laws open_tx committed _ _ _ zero_sum (
            then-Adds laws open_tx open_tx committed _ _ _ (new_uuid-Adds laws env) λ id.
              reads_then-Adds laws committed _ _ _ (now-OnlyReads env) λ posted_at.
                first-Adds laws open_tx open_tx committed _ _ _
                  (write_reversal-Adds original reversal id posted_at)
                  λ result.
                    then-Adds laws open_tx committed committed _ _ _ (commit-Adds laws env _)
                      λ _. KeepsDb-Adds laws _ (recorded-KeepsDb laws env ttl _ id result))
  answer-Adds original req (some id) =
      KeepsDb-Adds laws _ (get_transaction_with_entries-KeepsDb (total laws) env pool id)

  reverse-Adds :
      (original : Uuid) (req : ReversalRequest)
      → Adds laws committed committed nil (reverse_transaction_uuid env v ttl original req)
  unfolding reverse_transaction_uuid
  reverse-Adds original req =
      then-Adds laws committed committed committed _ _ _
        (KeepsDb-Adds laws _ (ledger-total laws _ (check_key-KeepsDb env ttl _)))
        λ o. answer-Adds original req o

  -- Reversing a transaction leaves the sum of the signed amounts of all entries of the ledger as it
  -- was, whatever the request and whatever fails on the way.
  pub reverse-total :
      (original : Uuid) (req : ReversalRequest) (w : World D)
      → total laws (reverse_transaction_uuid env v ttl original req w).1.db ≡ total laws w.db
  reverse-total original req =
      keeps_total laws env v ttl _ (reverse-Adds original req)
        (reverse-IsAtomic env v ttl original req)
