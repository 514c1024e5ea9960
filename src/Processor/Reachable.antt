-- ===== src/Processor/Reachable.antt =====
-- The operations of internal/service/transaction as the steps of the ledger.
use double_entry_ledger_engi.Processor.Reversals.{reverse-total}
use double_entry_ledger_engi.Processor.Batches.{post_batch-total}
use double_entry_ledger_engi.Processor.Conserved.{post_transaction-total}
use double_entry_ledger_engi.Processor.Atomic.{cancel-IsAtomic, settle-IsAtomic}
use double_entry_ledger_engi.Processor.States.{cancel-as_cancelled, settle-as_settled}
use double_entry_ledger_engi.Processor.Batch.{post_batch}
use double_entry_ledger_engi.Domain.{Transaction}
use double_entry_ledger_engi.Processor.Post.{post_transaction}
use double_entry_ledger_engi.Processor.Cancel.{
  cancel_pending_transaction_uuid, cancel_pending_transaction,
}
use double_entry_ledger_engi.Processor.Settle.{
  settle_pending_transaction, settle_pending_transaction_uuid,
}
use double_entry_ledger_engi.Processor.Reverse.{reverse_transaction}
use double_entry_ledger_engi.Processor.{PostTransactionRequest, ReversalRequest}
use double_entry_ledger_engi.Processor.Sums.{total}
use double_entry_ledger_engi.Base.{
  ℕ, Result, ◌≡◌, List, String, lift, ok, ap, ◌>>=◌, err, refl, ◌∙◌,
}
use double_entry_ledger_engi.Domain.Validator.{TransactionValidator}
use double_entry_ledger_engi.Store.{Env, World, Uuid, run, Error, M}
use double_entry_ledger_engi.Decimal.{Decimal, DecimalLaws}

module _ {D : Type 0} ⦃dec : Decimal D⦄ (env : Env) (v : TransactionValidator) (ttl : ℕ) where
  -- One call of the processor, whether it succeeds or not.
  pub data Step : World D → World D → Type 0 where
    post :
        (req : PostTransactionRequest D) (w : World D) → Step w (post_transaction env v ttl req w).1
    batch :
        (reqs : List (PostTransactionRequest D)) (w : World D)
        → Step w (post_batch env v ttl reqs w).1
    reverse :
        (original : String) (req : ReversalRequest) (w : World D)
        → Step w (reverse_transaction env v ttl original req w).1
    settle : (id : String) (w : World D) → Step w (settle_pending_transaction env id w).1
    cancel : (id : String) (w : World D) → Step w (cancel_pending_transaction env id w).1

  -- Any number of calls, one after the other.
  pub data Reaches : World D → World D → Type 0 where
    here : (w : World D) → Reaches w w
    after : {u w : World D} (x : World D) → Reaches u w → Step w x → Reaches u x

  module _ (laws : DecimalLaws D dec) where
    open laws use {Number, nil}

    settle-total :
        (id : Uuid) (w : World D)
        → total laws (settle_pending_transaction_uuid env id w).1.db ≡ total laws w.db
    settle-total id w = go _ refl
      where
        go :
            (r : Result (Error D) (Transaction D))
            → (settle_pending_transaction_uuid env id w).0 ≡ r
            → total laws (settle_pending_transaction_uuid env id w).1.db ≡ total laws w.db
        go (ok t) h = ap (total laws) ((settle-as_settled env id w t h).3)
        go (err e) h = (settle-IsAtomic (total laws) env id).undone w e h

    cancel-total :
        (id : Uuid) (w : World D)
        → total laws (cancel_pending_transaction_uuid env id w).1.db ≡ total laws w.db
    cancel-total id w = go _ refl
      where
        go :
            (r : Result (Error D) (Transaction D))
            → (cancel_pending_transaction_uuid env id w).0 ≡ r
            → total laws (cancel_pending_transaction_uuid env id w).1.db ≡ total laws w.db
        go (ok t) h = ap (total laws) ((cancel-as_cancelled env id w t h).3)
        go (err e) h = (cancel-IsAtomic (total laws) env id).undone w e h

    parsed-total :
        {A : Type 0} (r : Result (Error D) Uuid) (f : Uuid → M D A) (w : World D)
        → ((id : Uuid) → total laws (f id w).1.db ≡ total laws w.db)
        → total laws ((lift r >>= f) w).1.db ≡ total laws w.db
    unfolding run
    parsed-total (ok id) f w h = h id
    parsed-total (err e) f w h = refl

    -- A call of the processor leaves the sum of all entries of the ledger as it was.
    Step-total : (w x : World D) → Step w x → total laws x.db ≡ total laws w.db
    unfolding reverse_transaction settle_pending_transaction cancel_pending_transaction
    Step-total _ _ (post req w) = post_transaction-total laws env v ttl req w
    Step-total _ _ (batch reqs w) = post_batch-total laws env v ttl reqs w
    Step-total _ _ (reverse original req w) =
        parsed-total _ _ w (λ id. reverse-total laws env v ttl id req w)
    Step-total _ _ (settle id w) = parsed-total _ _ w (λ i. settle-total i w)
    Step-total _ _ (cancel id w) = parsed-total _ _ w (λ i. cancel-total i w)

    -- After any sequence of calls of the processor, whatever fails on the way, the signed amounts of
    -- all entries of the ledger sum to nothing, when they did before.
    pub Reaches-balanced :
        (u x : World D) → Reaches u x → total laws u.db ≡ nil → total laws x.db ≡ nil
    Reaches-balanced _ _ (here w) h = h
    Reaches-balanced _ _ (after {u = u} {w = w} x steps step) h =
        Step-total w x step ∙ Reaches-balanced u w steps h
