-- ===== src/Api/Handlers/Transactions/Answers.antt =====
-- What the answers of the handlers that write tell of the ledger.
use double_entry_ledger_engi.Api.Handlers.Answers.{IsRefused, IsServed, refuse_status, replied}
use double_entry_ledger_engi.Processor.Batched.{post_batch-IsAtomic}
use double_entry_ledger_engi.Processor.Batch.{post_batch}
use double_entry_ledger_engi.Processor.Post.{post_transaction}
use double_entry_ledger_engi.Processor.Atomic.{cancel-IsAtomic, settle-IsAtomic}
use double_entry_ledger_engi.Processor.{ReversalRequest, PostTransactionRequest}
use double_entry_ledger_engi.Processor.Settle.{settle_pending_transaction}
use double_entry_ledger_engi.Processor.Cancel.{cancel_pending_transaction}
use double_entry_ledger_engi.Api.Handlers.Transactions.{
  post_transaction_handler, TransactionBody, convert_to_service_request,
  post_batch_transactions_handler, post_converted, reverse_bound, settle_transaction_handler,
  cancel_transaction_handler, convert_batch, all_created, reverse_transaction_handler,
  post_converted_batch,
}
use double_entry_ledger_engi.Processor.Reverse.{reverse_transaction}
use double_entry_ledger_engi.Domain.{Transaction}
use double_entry_ledger_engi.Domain.Validator.{TransactionValidator}
use double_entry_ledger_engi.Store.Frame.{IsAtomic, bind-IsAtomic, lift-KeepsDb}
use double_entry_ledger_engi.Processor.Retried.{ledger, reverse-IsAtomic, post_transaction-IsAtomic}
use double_entry_ledger_engi.Api.Errors.{Rendering}
use double_entry_ledger_engi.Api.Response.{
  Response, Library, respond, transaction, Handler, bad_request,
}
use double_entry_ledger_engi.Decimal.{Decimal}
use double_entry_ledger_engi.Store.{World, Env}
use double_entry_ledger_engi.Base.{
  ℕ, Option, ◌≡◌, String, ok, arith, ◌⊎◌, Result, err, inl, inr, none, refl, List, if◌then◌else◌,
  same, Bool-cases,
}

module _ {D : Type 0} ⦃dec : Decimal D⦄ (lib : Library D) (env : Env) (v : TransactionValidator)
    (ttl : ℕ) (r : Rendering D) (request_id : Option String) where
  settle_text-IsAtomic : (id : String) → IsAtomic {D = D} ledger (settle_pending_transaction env id)
  unfolding settle_pending_transaction
  settle_text-IsAtomic id =
      bind-IsAtomic ledger _ _ (lift-KeepsDb ledger _) λ u. settle-IsAtomic ledger env u

  cancel_text-IsAtomic : (id : String) → IsAtomic {D = D} ledger (cancel_pending_transaction env id)
  unfolding cancel_pending_transaction
  cancel_text-IsAtomic id =
      bind-IsAtomic ledger _ _ (lift-KeepsDb ledger _) λ u. cancel-IsAtomic ledger env u

  reverse_text-IsAtomic :
      (id : String) (req : ReversalRequest)
      → IsAtomic {D = D} ledger (reverse_transaction env v ttl id req)
  unfolding reverse_transaction
  reverse_text-IsAtomic id req =
      bind-IsAtomic ledger _ _ (lift-KeepsDb ledger _) λ u. reverse-IsAtomic env v ttl u req

  -- The status and the transaction of an answer that shows a result.
  abbrev pub shows : ℕ → Transaction D → Response D
  shows status txn = record { status = status; body = transaction txn }

  posted :
      (o : Result String (PostTransactionRequest D)) (w : World D)
      → ((post : PostTransactionRequest D) × (o ≡ ok post)
          × IsServed
              (post_transaction env v ttl post)
              (shows 201)
              w
              (post_converted lib env v ttl r request_id o w))
        ⊎ IsRefused w (post_converted lib env v ttl r request_id o w)
  unfolding respond
  posted (err text) w = inr (refuse_status D request_id _, refl)
  posted (ok post) w =
      elim (replied (post_transaction env v ttl post) (shows 201) r request_id w
        (post_transaction-IsAtomic env v ttl post)) [
          | inl served ↦ inl (post, refl, served)
          | inr refused ↦ inr refused
        ]

  batch_posted :
      (o : Result String (List (PostTransactionRequest D))) (w : World D)
      → ((posts : List (PostTransactionRequest D)) × (o ≡ ok posts)
          × IsServed
              (post_batch env v ttl posts)
              (all_created lib env v ttl r request_id)
              w
              (post_converted_batch lib env v ttl r request_id o w))
        ⊎ IsRefused w (post_converted_batch lib env v ttl r request_id o w)
  unfolding respond
  batch_posted (err text) w = inr (refuse_status D request_id _, refl)
  batch_posted (ok posts) w =
      elim (replied (post_batch env v ttl posts) (all_created lib env v ttl r request_id) r
        request_id w (post_batch-IsAtomic env v ttl posts)) [
          | inl served ↦ inl (posts, refl, served)
          | inr refused ↦ inr refused
        ]

  reversed_bound :
      (id : String) (o : Result String ReversalRequest) (w : World D)
      → ((req : ReversalRequest) × (o ≡ ok req)
          × IsServed
              (reverse_transaction env v ttl id req)
              (shows 201)
              w
              (reverse_bound lib env v ttl r request_id id o w))
        ⊎ IsRefused w (reverse_bound lib env v ttl r request_id id o w)
  unfolding respond
  reversed_bound id (err text) w = inr (omega arith, refl)
  reversed_bound id (ok req) w =
      elim (replied (reverse_transaction env v ttl id req) (shows 201) r request_id w
        (reverse_text-IsAtomic id req)) [
          | inl served ↦ inl (req, refl, served)
          | inr refused ↦ inr refused
        ]

  post_answer :
      (body : Result String TransactionBody) (w : World D)
      → ((req : TransactionBody) × (post : PostTransactionRequest D) × (body ≡ ok req)
          × (convert_to_service_request lib req ≡ ok post)
          × IsServed
              (post_transaction env v ttl post)
              (shows 201)
              w
              (post_transaction_handler lib env v ttl r request_id body w))
        ⊎ IsRefused w (post_transaction_handler lib env v ttl r request_id body w)
  unfolding post_transaction_handler respond
  post_answer (err text) w = inr (refuse_status D request_id _, refl)
  post_answer (ok req) w = elim (posted (convert_to_service_request lib req) w) [
    | inl (post, e, served) ↦ inl (req, post, refl, e, served)
    | inr refused ↦ inr refused
  ]

  batch_answer :
      (bodies : Result String (List TransactionBody)) (w : World D)
      → ((reqs : List TransactionBody) × (posts : List (PostTransactionRequest D)) × (bodies
            ≡ ok reqs)
          × (convert_batch lib 0 reqs ≡ ok posts)
          × IsServed
              (post_batch env v ttl posts)
              (all_created lib env v ttl r request_id)
              w
              (post_batch_transactions_handler lib env v ttl r request_id bodies w))
        ⊎ IsRefused w (post_batch_transactions_handler lib env v ttl r request_id bodies w)
  unfolding post_batch_transactions_handler respond
  batch_answer (err text) w = inr (refuse_status D request_id _, refl)
  batch_answer (ok reqs) w = elim (batch_posted (convert_batch lib 0 reqs) w) [
    | inl (posts, e, served) ↦ inl (reqs, posts, refl, e, served)
    | inr refused ↦ inr refused
  ]

  -- A handler that wants an id refuses the empty one.
  with_id :
      (P : Response D × World D → Type 0) (id : String) (h : Handler D) (w : World D)
      → P (h w) ⊎ IsRefused w (h w)
      → P ((if same id "" then respond (bad_request "Transaction ID is required" none) else h) w)
        ⊎ IsRefused w
            ((if same id "" then respond (bad_request "Transaction ID is required" none) else h) w)
  unfolding respond
  with_id P id h w done = elim (Bool-cases (same id "")) [
    | inl empty ↦ rw empty (inr (omega arith, refl))
    | inr given ↦ rw given done
  ]

  pub writing_handlers-answer :
      (body : Result String TransactionBody) (bodies : Result String (List TransactionBody))
      (id : String) (reversal : Result String ReversalRequest) (w : World D)
      → (((req : TransactionBody) × (post : PostTransactionRequest D) × (body ≡ ok req)
            × (convert_to_service_request lib req ≡ ok post)
            × IsServed
                (post_transaction env v ttl post)
                (shows 201)
                w
                (post_transaction_handler lib env v ttl r request_id body w))
          ⊎ IsRefused w (post_transaction_handler lib env v ttl r request_id body w))
        × (((reqs : List TransactionBody) × (posts : List (PostTransactionRequest D)) × (bodies
                ≡ ok reqs)
              × (convert_batch lib 0 reqs ≡ ok posts)
              × IsServed
                  (post_batch env v ttl posts)
                  (all_created lib env v ttl r request_id)
                  w
                  (post_batch_transactions_handler lib env v ttl r request_id bodies w))
            ⊎ IsRefused w (post_batch_transactions_handler lib env v ttl r request_id bodies w))
        × (IsServed
              (settle_pending_transaction env id)
              (shows 200)
              w
              (settle_transaction_handler lib env v ttl r request_id id w)
            ⊎ IsRefused w (settle_transaction_handler lib env v ttl r request_id id w))
        × (IsServed
              (cancel_pending_transaction env id)
              (shows 200)
              w
              (cancel_transaction_handler lib env v ttl r request_id id w)
            ⊎ IsRefused w (cancel_transaction_handler lib env v ttl r request_id id w))
        × (((req : ReversalRequest) × (reversal ≡ ok req)
              × IsServed
                  (reverse_transaction env v ttl id req)
                  (shows 201)
                  w
                  (reverse_transaction_handler lib env v ttl r request_id id reversal w))
            ⊎ IsRefused w (reverse_transaction_handler lib env v ttl r request_id id reversal w))
  unfolding settle_transaction_handler cancel_transaction_handler reverse_transaction_handler
  writing_handlers-answer body bodies id reversal w = (
    post_answer body w,
    batch_answer bodies w,
    with_id (IsServed (settle_pending_transaction env id) (shows 200) w) id _ w (
        replied (settle_pending_transaction env id) (shows 200) r request_id w
          (settle_text-IsAtomic id)),
    with_id (IsServed (cancel_pending_transaction env id) (shows 200) w) id _ w (
        replied (cancel_pending_transaction env id) (shows 200) r request_id w
          (cancel_text-IsAtomic id)),
    with_id
        (λ p.
          (req : ReversalRequest) × (reversal ≡ ok req)
          × IsServed (reverse_transaction env v ttl id req) (shows 201) w p)
        id _ w (reversed_bound id reversal w),
  )
