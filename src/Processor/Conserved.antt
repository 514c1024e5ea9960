-- ===== src/Processor/Conserved.antt =====
-- Posting leaves the sum of all entries of the ledger as it was.
use double_entry_ledger_engi.Processor.Written.{execute-Adds}
use double_entry_ledger_engi.Processor.Atomic.{execute-IsAtomic}
use double_entry_ledger_engi.Domain.Validator.Complete.{validate_transaction_iff}
use double_entry_ledger_engi.Ledger.Frames.{get_transaction_with_entries-KeepsDb}
use double_entry_ledger_engi.Domain.Validator.Balanced.{signed_sum}
use double_entry_ledger_engi.Domain.Errors.{ValidationError}
use double_entry_ledger_engi.Processor.Retried.{
  ledger, post_transaction-IsAtomic, check-KeepsDb, check_key-KeepsDb, wait-KeepsDb,
}
use double_entry_ledger_engi.Store.Frame.{IsAtomic}
use double_entry_ledger_engi.Processor.Write.{check}
use double_entry_ledger_engi.Processor.Post.{
  answer, post_new, post_transaction, get_transaction_by_id,
}
use double_entry_ledger_engi.Processor.Sums.{
  Adds, input_sum, committed, total, then-Adds, when-Adds, KeepsDb-Adds, raise-Adds, ledger-total,
  ledger-total_undone, equal_Adds,
}
use double_entry_ledger_engi.Processor.{
  EntryRequest, PostTransactionRequest, entry_requests_to_ledger_inputs, request_to_transaction,
  entry_of_request,
}
use double_entry_ledger_engi.Concurrency.{
  RetryConfig, execute_with_retry, attempts, after_attempt, default_retry_config,
  is_retryable_error,
}
use double_entry_ledger_engi.Base.{
  List, ℕ, Option, String, ◌≡◌, Result, none, map, ok, some, suc, ◌∙◌, err, refl, zero, ◌∷◌,
  Bool-cases, ap, [], inl, inr, arith,
}
use double_entry_ledger_engi.Domain.Validator.{TransactionValidator, validate_transaction}
use double_entry_ledger_engi.Store.{Env, M, World, run, Error, Uuid, pool}
use double_entry_ledger_engi.Decimal.{Decimal, DecimalLaws}

module _ {D : Type 0} ⦃dec : Decimal D⦄ (laws : DecimalLaws D dec) (env : Env) where
  open laws use {Number, nil, plus, plus-nil}

  module _ {A : Type 0} (n : Number) (config : RetryConfig) (m : M D A)
      (atomic : IsAtomic (total laws) m) (adds : Adds laws committed committed n m) where
    after_attempt-sums :
        (again : Error D → M D A) (d : Number) (p : Result (Error D) A × World D) (a : A)
        → ((x : Error D) → Adds laws committed committed n (again x))
        → ((b : A) → p.0 ≡ ok b → total laws p.1.db ≡ plus d n)
        → ((x : Error D) → p.0 ≡ err x → total laws p.1.db ≡ d)
        → (after_attempt env config m again p).0 ≡ ok a
        → total laws (after_attempt env config m again p).1.db ≡ plus d n
    after_attempt-sums again d (ok b, w) a h s k q = s b refl
    after_attempt-sums again d (err x, w) a h s k q =
        elim (Bool-cases (is_retryable_error config.retryable_errors x)) [
          | inl r ↦ rw r ((h x).sums w a (rw r at q) ∙ ap (λ y. plus y n) (k x refl))
          | inr r ↦ absurd (ground arith)
        ]

    attempts-Adds : (left : ℕ) → Adds laws committed committed n (attempts env config m left)
    unfolding attempts
    attempts-Adds zero = record {
      sums = λ w a.
          after_attempt-sums _ _ (m w) a (λ x. raise-Adds laws _ _ _ _) (adds.sums w)
            (atomic.undone w);
    }
    attempts-Adds (suc left) = record {
      sums = λ w a.
          after_attempt-sums _ _ (m w) a
            (λ x.
              then-Adds laws committed committed committed _ _ _
                (KeepsDb-Adds laws _ (wait-KeepsDb (total laws) env config m atomic))
                λ _. attempts-Adds left)
            (adds.sums w) (atomic.undone w);
    }

    execute_with_retry-Adds : Adds laws committed committed n (execute_with_retry env config m)
    unfolding execute_with_retry
    execute_with_retry-Adds = attempts-Adds config.max_retries

  input_sum-signed_sum :
      (es : List (EntryRequest D))
      → input_sum laws (entry_requests_to_ledger_inputs es)
        ≡ signed_sum laws (map entry_of_request es)
  input_sum-signed_sum [] = refl
  input_sum-signed_sum (e ∷ es) = ap (plus _) (input_sum-signed_sum es)

  module _ (v : TransactionValidator) (ttl : ℕ) where
    -- A request that passes validation has entries whose signed amounts cancel.
    pub valid_request :
        (req : PostTransactionRequest D)
        → validate_transaction v (request_to_transaction req) ≡ none
        → input_sum laws (entry_requests_to_ledger_inputs req.entries) ≡ nil
    valid_request req h =
        input_sum-signed_sum req.entries ∙ ((validate_transaction_iff laws v _).0 h).balanced

    pub check_ok :
        (t : String) (o : Option (ValidationError D)) (w : World D)
        → (check t o w).0 ≡ ok tt
        → o ≡ none
    unfolding check run
    check_ok t none w h = refl
    check_ok t (some e) w h = absurd cc

    post_new-Adds :
        (req : PostTransactionRequest D)
        → Adds laws committed committed nil (post_new env v ttl req)
    unfolding post_new
    post_new-Adds req =
        when-Adds laws (λ _. validate_transaction v (request_to_transaction req) ≡ none) committed
          committed committed _ _ _
          (KeepsDb-Adds laws _ (ledger-total laws _ (check-KeepsDb env ttl _ _)))
          (λ w a h. check_ok _ _ w h)
          λ _ valid. equal_Adds laws committed committed _ _ _ (valid_request req valid) (
            execute_with_retry-Adds _ default_retry_config _
              (execute-IsAtomic (total laws) env ttl req) (execute-Adds laws env ttl req))

    answer-Adds :
        (req : PostTransactionRequest D) (o : Option Uuid)
        → Adds laws committed committed nil (answer env v ttl req o)
    unfolding answer get_transaction_by_id
    answer-Adds req none = post_new-Adds req
    answer-Adds req (some id) =
        KeepsDb-Adds laws _ (get_transaction_with_entries-KeepsDb (total laws) env pool id)

    -- Whatever a call does that adds nothing when it succeeds and undoes all when it fails.
    pub keeps_total :
        {A : Type 0} (m : M D A)
        → Adds laws committed committed nil m
        → IsAtomic ledger m
        → (w : World D) → total laws (m w).1.db ≡ total laws w.db
    keeps_total {A = A} m adds atomic w =
        go (m w) (adds.sums w) ((ledger-total_undone laws m atomic).undone w)
      where
        go :
            (p : Result (Error D) A × World D)
            → ((a : A) → p.0 ≡ ok a → total laws p.1.db ≡ plus (total laws w.db) nil)
            → ((e : Error D) → p.0 ≡ err e → total laws p.1.db ≡ total laws w.db)
            → total laws p.1.db ≡ total laws w.db
        go (ok a, u) s k = s a refl ∙ plus-nil _
        go (err e, u) s k = k e refl

    post-Adds :
        (req : PostTransactionRequest D)
        → Adds laws committed committed nil (post_transaction env v ttl req)
    unfolding post_transaction
    post-Adds req =
        then-Adds laws committed committed committed _ _ _
          (KeepsDb-Adds laws _ (ledger-total laws _ (check_key-KeepsDb env ttl _)))
          λ o. answer-Adds req o

    -- Posting a transaction leaves the sum of the signed amounts of all entries of the ledger as it
    -- was, whatever the request and whatever fails on the way.
    pub post_transaction-total :
        (req : PostTransactionRequest D) (w : World D)
        → total laws (post_transaction env v ttl req w).1.db ≡ total laws w.db
    post_transaction-total req =
        keeps_total _ (post-Adds req) (post_transaction-IsAtomic env v ttl req)
