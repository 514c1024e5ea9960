-- ===== src/Processor/Sums.antt =====
-- What a chain of calls adds to the sum of all entries of the ledger.
use double_entry_ledger_engi.Processor.Retried.{ledger}
use double_entry_ledger_engi.Decimal.Group.{nil-plus}
use double_entry_ledger_engi.Domain.Validator.Balanced.{signed}
use double_entry_ledger_engi.Balance.Sums.{row_sum}
use double_entry_ledger_engi.Ledger.{LedgerEntryInput}
use double_entry_ledger_engi.Store.Frame.{KeepsDb, IsAtomic}
use double_entry_ledger_engi.Store.Reading.{OnlyReads, wrap_ok}
use double_entry_ledger_engi.Base.{
  List, Result, String, ◌>>=◌, ◌≡◌, ap, ok, raise, subst, sym, ◌∙◌, ◌∷◌, next, [], err, refl, arith,
  Bool, if◌then◌else◌, true, false,
}
use double_entry_ledger_engi.Store.{
  Db, Env, M, World, run, Error, Event, new_uuid, emit, wrap, write_tx, begin, commit,
}
use double_entry_ledger_engi.Decimal.{Decimal, DecimalLaws}

module _ {D : Type 0} where
  abbrev pub committed : World D → Db D
  committed w = w.db

  abbrev pub open_tx : World D → Db D
  open_tx w = w.tx

module _ {D : Type 0} (env : Env) where
  commit_ok : (w : World D) → (commit env w).0 ≡ ok tt → (commit env w).1.db ≡ w.tx
  unfolding run
  commit_ok w h = ground arith

  emit_tx : (e : Event D) (w : World D) → (emit env e w).1.tx ≡ w.tx
  unfolding run
  emit_tx e w = ground arith

module _ {D : Type 0} ⦃dec : Decimal D⦄ (laws : DecimalLaws D dec) where
  open laws use {Number, value, nil, plus, negate, plus_assoc, plus-nil}

  -- The sum of the signed amounts of all entries.
  abbrev pub total : Db D → Number
  total db = row_sum laws db.entries

  abbrev pub input_sum : List (LedgerEntryInput D) → Number
  input_sum [] = nil
  input_sum (e ∷ es) = plus (signed laws e.entry_type e.amount) (input_sum es)

  -- When the call succeeds, the tables at `q` afterwards hold the sum of those at `p` before and `n`.
  pub record Adds {A : Type 0} (p q : World D → Db D) (n : Number) (m : M D A) : Type 0 where
    pub sums : (w : World D) (a : A) → (m w).0 ≡ ok a → total (q (m w).1) ≡ plus (total (p w)) n

  next-sums :
      {A B : Type 0} (q r : World D → Db D) (n k : Number) (f : A → M D B) (d : Number)
      (o : Result (Error D) A × World D) (b : B)
      → ((a : A) → Adds q r k (f a))
      → ((a : A) → o.0 ≡ ok a → total (q o.1) ≡ plus d n)
      → (next f o).0 ≡ ok b
      → total (r (next f o).1) ≡ plus d (plus n k)
  next-sums q r n k f d (ok a, w) b h e x =
      (h a).sums w b x ∙ ap (λ y. plus y k) (e a refl) ∙ plus_assoc _ _ _
  next-sums q r n k f d (err y, w) b h e x = absurd cc

  pub bind-Adds :
      {A B : Type 0} (p q r : World D → Db D) (n k : Number) (m : M D A) (f : A → M D B)
      → Adds p q n m
      → ((a : A) → Adds q r k (f a))
      → Adds p r (plus n k) (m >>= f)
  unfolding run
  bind-Adds p q r n k m f h g = record {
    sums = λ w b x. next-sums q r n k f (total (p w)) (m w) b g (h.sums w) x;
  }

  pub first-Adds :
      {A B : Type 0} (p q r : World D → Db D) (n : Number) (m : M D A) (f : A → M D B)
      → Adds p q n m
      → ((a : A) → Adds q r nil (f a))
      → Adds p r n (m >>= f)
  first-Adds p q r n m f h g =
      subst (λ x. Adds p r x (m >>= f)) (plus-nil n) (bind-Adds p q r n nil m f h g)

  pub then-Adds :
      {A B : Type 0} (p q r : World D → Db D) (n : Number) (m : M D A) (f : A → M D B)
      → Adds p q nil m
      → ((a : A) → Adds q r n (f a))
      → Adds p r n (m >>= f)
  then-Adds p q r n m f h g =
      subst (λ x. Adds p r x (m >>= f)) (nil-plus laws n) (bind-Adds p q r nil n m f h g)

  pub wrap-Adds :
      {A : Type 0} (p q : World D → Db D) (n : Number) (t : String) (m : M D A)
      → Adds p q n m
      → Adds p q n (wrap t m)
  unfolding run
  wrap-Adds p q n t m h = record { sums = λ w a x. h.sums w a (wrap_ok t m w a x) }

  pub raise-Adds :
      {A : Type 0} (p q : World D → Db D) (n : Number) (e : Error D) → Adds {A = A} p q n (raise e)
  unfolding run
  raise-Adds p q n e = record { sums = λ w a x. absurd cc }

  pub OnlyReads-Adds : {A : Type 0} (m : M D A) → OnlyReads m → Adds open_tx open_tx nil m
  OnlyReads-Adds m h = record { sums = λ w a x. ap total ((h.same_tables w).1) ∙ sym (plus-nil _) }

  pub reads_then-Adds :
      {A B : Type 0} (r : World D → Db D) (n : Number) (m : M D A) (f : A → M D B)
      → OnlyReads m
      → ((a : A) → Adds open_tx r n (f a))
      → Adds open_tx r n (m >>= f)
  reads_then-Adds r n m f h g = then-Adds open_tx open_tx r n m f (OnlyReads-Adds m h) g

  pub if-Adds :
      {A : Type 0} (p q : World D → Db D) (n : Number) (b : Bool) (m k : M D A)
      → Adds p q n m
      → Adds p q n k
      → Adds p q n (if b then m else k)
  if-Adds p q n true m k h g = h
  if-Adds p q n false m k h g = g

  pub KeepsDb-Adds : {A : Type 0} (m : M D A) → KeepsDb total m → Adds committed committed nil m
  KeepsDb-Adds m h = record { sums = λ w a x. h.same_db w ∙ sym (plus-nil _) }

  pub write_tx-Adds :
      (n : Number) (f : Db D → Db D)
      → ((db : Db D) → total (f db) ≡ plus (total db) n)
      → Adds open_tx open_tx n (write_tx f)
  unfolding run
  write_tx-Adds n f h = record { sums = λ w a x. h w.tx }

  module _ (env : Env) where
    pub begin-Adds : (t : String) → Adds committed open_tx nil (wrap t (begin env))
    unfolding run
    begin-Adds t = record { sums = λ w a x. sym (plus-nil _) }

    pub commit-Adds : (t : String) → Adds open_tx committed nil (wrap t (commit env))
    unfolding run
    commit-Adds t = record {
      sums = λ w a x. ap total (commit_ok env w (wrap_ok t (commit env) w a x)) ∙ sym (plus-nil _);
    }

    pub emit-Adds : (e : Event D) → Adds open_tx open_tx nil (emit env e)
    unfolding run
    emit-Adds e = record { sums = λ w a x. ap total (emit_tx env e w) ∙ sym (plus-nil _) }

    pub new_uuid-Adds : Adds open_tx open_tx nil (new_uuid {D = D} env)
    unfolding run
    new_uuid-Adds = record { sums = λ w a x. sym (plus-nil _) }

  -- A view of the ledger without its keys shows the sum.
  pub ledger-total : {A : Type 0} (m : M D A) → KeepsDb ledger m → KeepsDb total m
  ledger-total m h = record { same_db = λ w. ap (λ l. row_sum laws l.3) (h.same_db w) }

  pub ledger-total_undone : {A : Type 0} (m : M D A) → IsAtomic ledger m → IsAtomic total m
  ledger-total_undone m h = record { undone = λ w e x. ap (λ l. row_sum laws l.3) (h.undone w e x) }

  -- What a call that succeeds returned may bear on what follows.
  pub when-Adds :
      {A B : Type 0} (P : A → Type 0) (p q r : World D → Db D) (n : Number) (m : M D A)
      (f : A → M D B)
      → Adds p q nil m
      → ((w : World D) (a : A) → (m w).0 ≡ ok a → P a)
      → ((a : A) → P a → Adds q r n (f a))
      → Adds p r n (m >>= f)
  unfolding run
  when-Adds {A = A} {B = B} P p q r n m f h post g = record {
    sums = λ w b x. go w (m w) b (h.sums w) (post w) x;
  }
    where
      go :
          (w : World D) (o : Result (Error D) A × World D) (b : B)
          → ((a : A) → o.0 ≡ ok a → total (q o.1) ≡ plus (total (p w)) nil)
          → ((a : A) → o.0 ≡ ok a → P a)
          → (next f o).0 ≡ ok b
          → total (r (next f o).1) ≡ plus (total (p w)) n
      go w (ok a, u) b s t x =
          (g a (t a refl)).sums u b x ∙ ap (λ y. plus y n) (s a refl ∙ plus-nil _)
      go w (err e, u) b s t x = absurd cc

  pub equal_Adds :
      {A : Type 0} (p q : World D → Db D) (n k : Number) (m : M D A)
      → n ≡ k
      → Adds p q n m
      → Adds p q k m
  equal_Adds p q n k m e h = subst (λ x. Adds p q x m) e h
