-- ===== src/Processor/Accepts.antt =====
-- PostTransaction of internal/service/transaction/processor_post.go, when no call fails.
use double_entry_ledger_engi.Base.{
  Option, ℕ, List, String, ◌≡◌, ap, none, ok, some, find, next, refl, suc, ◌∙◌,
}
use native.Mathlib.Omega.{arith}
use double_entry_ledger_engi.Store.Success.{IsReliable, Succeeds}
use double_entry_ledger_engi.Processor.Succeeds.{IsReady, execute_post_transaction-Succeeds}
use double_entry_ledger_engi.Processor.{
  PostTransactionRequest, entry_requests_to_ledger_inputs, used_key, request_to_transaction,
}
use double_entry_ledger_engi.Processor.Execute.{execute_post_transaction}
use double_entry_ledger_engi.Processor.Write.{check_key, check}
use double_entry_ledger_engi.Processor.Retried.{ledger}
use double_entry_ledger_engi.Processor.Rows.{AreRowsOf}
use double_entry_ledger_engi.Processor.Post.{post_transaction, post_new, answer}
use double_entry_ledger_engi.Processor.Posted.{
  add_posting, row_of_request, execute_post_transaction-AreRowsOf,
}
use double_entry_ledger_engi.Concurrency.{default_retry_config}
use double_entry_ledger_engi.Concurrency.Retries.{execute_with_retry-once}
use double_entry_ledger_engi.Idempotency.{
  check_and_reserve, select_row, check_row, has_key, new_record,
}
use double_entry_ledger_engi.Domain.Validator.{TransactionValidator, validate_transaction}
use double_entry_ledger_engi.Domain.Validator.Complete.{IsPostable, validate_transaction_iff}
use double_entry_ledger_engi.Store.{Env, Db, run, Uuid, World, EntryRow, select_key}
use double_entry_ledger_engi.Decimal.{Decimal, DecimalLaws}

module _ {D : Type 0} where
  -- The key of the request, where it has one, is not in the table of keys.
  abbrev pub IsNewKey : Option String → Db D → Type 0
  IsNewKey none db = Unit
  IsNewKey (some key) db = find (has_key key) db.idempotency_keys ≡ none

  -- The world after the lookup of a new key: one query and two readings of the clock.
  abbrev pub looked_up : Option String → World D → World D
  looked_up none w = w
  looked_up (some key) w = record w { tick = suc (suc (suc w.tick)) }

module _ {D : Type 0} ⦃dec : Decimal D⦄ (laws : DecimalLaws D dec) (env : Env)
    (v : TransactionValidator) (ttl : ℕ) where
  key_new :
      (key : Option String) (w : World D)
      → IsReliable env
      → IsNewKey key w.db
      → check_key env ttl key w ≡ (ok none, looked_up key w)
  unfolding check_key check_and_reserve select_row check_row new_record run
  key_new none w reliable h = refl
  key_new (some key) w reliable h = let no_fault = reliable w.tick select_key in ground arith

  same_db : (key : Option String) (w : World D) → (looked_up key w).db ≡ w.db
  same_db none w = refl
  same_db (some key) w = refl

  -- The first attempt of a posting that succeeds is the whole posting.
  post_new-once :
      (req : PostTransactionRequest D) (w : World D)
      → validate_transaction v (request_to_transaction req) ≡ none
      → Succeeds (execute_post_transaction env ttl req) w
      → post_new env v ttl req w ≡ execute_post_transaction env ttl req w
  unfolding post_new check run
  post_new-once req w valid (t, done) = rw valid (
      execute_with_retry-once env default_retry_config (execute_post_transaction env ttl req) w
        (λ e failed. absurd (cc (done, failed))))

  post_transaction-once :
      (req : PostTransactionRequest D) (w : World D)
      → IsReliable env
      → IsNewKey (used_key req.idempotency_key) w.db
      → validate_transaction v (request_to_transaction req) ≡ none
      → IsReady env req (looked_up (used_key req.idempotency_key) w)
      → post_transaction env v ttl req w
        ≡ execute_post_transaction env ttl req (looked_up (used_key req.idempotency_key) w)
  unfolding post_transaction answer run
  post_transaction-once req w reliable fresh valid ready =
      ap (next (answer env v ttl req)) (key_new (used_key req.idempotency_key) w reliable fresh)
      ∙ post_new-once req (looked_up (used_key req.idempotency_key) w) valid
          (execute_post_transaction-Succeeds env ttl req _ reliable ready)

  pub post_transaction-Succeeds :
      (req : PostTransactionRequest D) (w : World D)
      → IsReliable env
      → IsNewKey (used_key req.idempotency_key) w.db
      → IsPostable laws v (request_to_transaction req)
      → IsReady env req (looked_up (used_key req.idempotency_key) w)
      → Succeeds (post_transaction env v ttl req) w
        × ((id : Uuid) × (posted_at : ℕ) × (rows : List (EntryRow D)) × (ledger
                (post_transaction env v ttl req w).1.db
              ≡ ledger (add_posting w.db (row_of_request req id posted_at) rows))
            × AreRowsOf env id (entry_requests_to_ledger_inputs req.entries) rows)
  post_transaction-Succeeds req w reliable fresh postable ready =
      let key = used_key req.idempotency_key in
      let valid = (validate_transaction_iff laws v (request_to_transaction req)).1 postable in
      let once = post_transaction-once req w reliable fresh valid ready in
      let (t, done) =
        execute_post_transaction-Succeeds env ttl req (looked_up key w) reliable ready in
      let (id, posted_at, rows, written, rows_are) =
        execute_post_transaction-AreRowsOf env ttl req (looked_up key w) t done in
      (
        (t, ap (λ p. p.0) once ∙ done),
        (
          id,
          posted_at,
          rows,
          ap (λ p. ledger p.1.db) once
              ∙ written
              ∙ ap (λ db. ledger (add_posting db (row_of_request req id posted_at) rows))
                  (same_db key w),
          rows_are,
        ),
      )
