-- ===== src/Processor/Batches.antt =====
-- A batch leaves the sum of all entries of the ledger as it was.
use double_entry_ledger_engi.Processor.Frames.{validate_accounts_for_post-OnlyReads}
use double_entry_ledger_engi.Processor.Write.{check_key}
use double_entry_ledger_engi.Processor.Written.{row-Adds, entries-Adds}
use double_entry_ledger_engi.Processor.Batched.{post_batch-IsAtomic, check_requests-KeepsDb}
use double_entry_ledger_engi.Processor.Conserved.{keeps_total, valid_request, check_ok}
use double_entry_ledger_engi.Processor.Retried.{ledger, record_key-KeepsDb}
use double_entry_ledger_engi.Store.Frame.{KeepsDb, bind-KeepsDb, pure-KeepsDb}
use double_entry_ledger_engi.Store.Reading.{
  OnlyReads, pure-OnlyReads, now-OnlyReads, bind-OnlyReads, next_ok, wrap-OnlyReads,
}
use double_entry_ledger_engi.Ledger.{insert_transaction_row}
use double_entry_ledger_engi.Domain.{Transaction}
use double_entry_ledger_engi.Processor.Sums.{
  Adds, input_sum, committed, open_tx, total, OnlyReads-Adds, if-Adds, reads_then-Adds, then-Adds,
  when-Adds, KeepsDb-Adds, wrap-Adds, emit-Adds, equal_Adds, ledger-total, new_uuid-Adds,
  raise-Adds, first-Adds, begin-Adds, commit-Adds,
}
use double_entry_ledger_engi.Processor.Validate.{validate_accounts_and_balances}
use double_entry_ledger_engi.Processor.{
  PostTransactionRequest, entry_requests_to_ledger_inputs, used_key,
}
use double_entry_ledger_engi.Processor.Batch.{
  batch_in_tx, check_all_accounts, check_requests, emit_all, new_ids, post_batch, post_checked,
  record_keys, write_request, write_requests,
}
use double_entry_ledger_engi.Base.{
  ℕ, List, All, ◌≡◌, ok, is_empty, ◌∷◌, [], ltb, length, ◌+◌, false, suc,
}
use double_entry_ledger_engi.Domain.Validator.{TransactionValidator}
use double_entry_ledger_engi.Store.{Env, Uuid, World}
use double_entry_ledger_engi.Decimal.{Decimal, DecimalLaws}

module _ {D : Type 0} ⦃dec : Decimal D⦄ (laws : DecimalLaws D dec) (env : Env)
    (v : TransactionValidator) (ttl : ℕ) where
  open laws use {Number, nil, plus, plus-nil}

  abbrev Cancels : PostTransactionRequest D → Type 0
  Cancels req = input_sum laws (entry_requests_to_ledger_inputs req.entries) ≡ nil

  -- Every request of a batch whose checks succeed has passed the validation.
  check_requests_ok :
      (i : ℕ) (reqs : List (PostTransactionRequest D)) (w : World D)
      → (check_requests env v ttl i reqs w).0 ≡ ok tt
      → All Cancels reqs
  unfolding check_requests
  check_requests_ok i [] w h = tt
  check_requests_ok i (req ∷ reqs) w h =
      let (o, w1, p1, h1) = next_ok (check_key env ttl (used_key req.idempotency_key)) _ w tt h in
      let (_, w2, p2, h2) = next_ok _ _ w1 tt h1 in
      let (_, w3, p3, h3) = next_ok _ _ w2 tt h2 in
      (
        valid_request laws env v ttl req (check_ok laws env v ttl _ _ w2 p3),
        check_requests_ok (suc i) reqs w3 h3,
      )

  write_request-Adds :
      (req : PostTransactionRequest D) (id : Uuid) (posted_at : ℕ)
      → Adds laws open_tx open_tx
          (input_sum laws (entry_requests_to_ledger_inputs req.entries))
          (write_request env v ttl req id posted_at)
  unfolding write_request insert_transaction_row
  write_request-Adds req id posted_at =
      then-Adds laws open_tx open_tx open_tx _ _ _
        (wrap-Adds laws open_tx open_tx _ _ _ (row-Adds laws env _))
        λ _.
          first-Adds laws open_tx open_tx open_tx _ _ _
            (wrap-Adds laws open_tx open_tx _ _ _ (entries-Adds laws env id _ posted_at))
            λ entries. OnlyReads-Adds laws _ (pure-OnlyReads _)

  write_requests-Adds :
      (reqs : List (PostTransactionRequest D)) (ids : List Uuid) (posted_at : ℕ)
      → All Cancels reqs
      → Adds laws open_tx open_tx nil (write_requests env v ttl reqs ids posted_at)
  unfolding write_requests
  write_requests-Adds (req ∷ reqs) (id ∷ ids) posted_at h =
      then-Adds laws open_tx open_tx open_tx _ _ _
        (equal_Adds laws open_tx open_tx _ _ _ h.0 (write_request-Adds req id posted_at))
        λ _.
          first-Adds laws open_tx open_tx open_tx _ _ _
            (write_requests-Adds reqs ids (posted_at + 1) h.1)
            λ _. OnlyReads-Adds laws _ (pure-OnlyReads _)
  write_requests-Adds _ _ posted_at h = OnlyReads-Adds laws _ (pure-OnlyReads _)

  emit_all-Adds :
      (results : List (Transaction D)) → Adds laws open_tx open_tx nil (emit_all env v ttl results)
  unfolding emit_all
  emit_all-Adds [] = OnlyReads-Adds laws _ (pure-OnlyReads _)
  emit_all-Adds (result ∷ results) =
      then-Adds laws open_tx open_tx open_tx _ _ _
        (wrap-Adds laws open_tx open_tx _ _ _ (emit-Adds laws env _)) λ _. emit_all-Adds results

  new_ids-Adds :
      (reqs : List (PostTransactionRequest D))
      → Adds {D = D} laws open_tx open_tx nil (new_ids env v ttl reqs)
  unfolding new_ids
  new_ids-Adds [] = OnlyReads-Adds laws _ (pure-OnlyReads _)
  new_ids-Adds (req ∷ reqs) =
      then-Adds laws open_tx open_tx open_tx _ _ _ (new_uuid-Adds laws env) λ id.
        first-Adds laws open_tx open_tx open_tx _ _ _ (new_ids-Adds reqs)
          λ ids. OnlyReads-Adds laws _ (pure-OnlyReads _)

  accounts-OnlyReads :
      (reqs : List (PostTransactionRequest D))
      → OnlyReads {D = D} (check_all_accounts env v ttl reqs)
  unfolding check_all_accounts validate_accounts_and_balances
  accounts-OnlyReads [] = pure-OnlyReads tt
  accounts-OnlyReads (req ∷ reqs) =
      bind-OnlyReads _ _
        (wrap-OnlyReads _ _ (validate_accounts_for_post-OnlyReads env false req.entries))
        λ _. accounts-OnlyReads reqs

  batch_in_tx-Adds :
      (reqs : List (PostTransactionRequest D))
      → All Cancels reqs
      → Adds laws open_tx open_tx nil (batch_in_tx env v ttl reqs)
  unfolding batch_in_tx
  batch_in_tx-Adds reqs h = reads_then-Adds laws open_tx nil _ _ (accounts-OnlyReads reqs) λ _.
      reads_then-Adds laws open_tx nil _ _ (now-OnlyReads env) λ base_time.
        then-Adds laws open_tx open_tx open_tx _ _ _ (new_ids-Adds reqs) λ ids.
          then-Adds laws open_tx open_tx open_tx _ _ _ (write_requests-Adds reqs ids base_time h)
            λ results.
              then-Adds laws open_tx open_tx open_tx _ _ _ (emit_all-Adds results)
                λ _. OnlyReads-Adds laws _ (pure-OnlyReads _)

  record_keys-KeepsDb :
      (reqs : List (PostTransactionRequest D)) (ids : List Uuid)
      → KeepsDb ledger (record_keys {D = D} env v ttl reqs ids)
  unfolding record_keys
  record_keys-KeepsDb (req ∷ reqs) (id ∷ ids) =
      bind-KeepsDb ledger _ _ (record_key-KeepsDb env ttl _ id) λ _. record_keys-KeepsDb reqs ids
  record_keys-KeepsDb _ _ = pure-KeepsDb ledger tt

  post_checked-Adds :
      (reqs : List (PostTransactionRequest D))
      → Adds laws committed committed nil (post_checked env v ttl reqs)
  unfolding post_checked
  post_checked-Adds reqs =
      when-Adds laws (λ _. All Cancels reqs) committed committed committed _ _ _
        (KeepsDb-Adds laws _ (ledger-total laws _ (check_requests-KeepsDb env v ttl 0 reqs)))
        (λ w a h. check_requests_ok 0 reqs w h)
        λ _ valid. then-Adds laws committed open_tx committed _ _ _ (begin-Adds laws env _) λ _.
          then-Adds laws open_tx open_tx committed _ _ _ (batch_in_tx-Adds reqs valid) λ done.
            then-Adds laws open_tx committed committed _ _ _ (commit-Adds laws env _) λ _.
              KeepsDb-Adds laws _ (
                bind-KeepsDb (total laws) _ _
                  (ledger-total laws _ (record_keys-KeepsDb reqs done.0))
                  λ _. pure-KeepsDb (total laws) done.1)

  post_batch-Adds :
      (reqs : List (PostTransactionRequest D))
      → Adds laws committed committed nil (post_batch env v ttl reqs)
  unfolding post_batch
  post_batch-Adds reqs = if-Adds laws _ _ _ (is_empty reqs) _ _ (raise-Adds laws _ _ _ _) (
      if-Adds laws _ _ _ (ltb 1000 (length reqs)) _ _ (raise-Adds laws _ _ _ _)
        (post_checked-Adds reqs))

  -- Posting a batch leaves the sum of the signed amounts of all entries of the ledger as it was,
  -- whatever the requests and whatever fails on the way.
  pub post_batch-total :
      (reqs : List (PostTransactionRequest D)) (w : World D)
      → total laws (post_batch env v ttl reqs w).1.db ≡ total laws w.db
  post_batch-total reqs =
      keeps_total laws env v ttl _ (post_batch-Adds reqs) (post_batch-IsAtomic env v ttl reqs)
