-- ===== src/Store/Frame.antt =====
-- What a chain of calls leaves alone: rules for the committed tables, as far as a
-- view of them shows, and for failure.
use double_entry_ledger_engi.Base.{
  suc, ◌≡◌, refl, ◌∙◌, Bool, true, false, String, Result, ok, err, ◌>>=◌, next, map_err, pure,
  raise, lift, arith, if◌then◌else◌,
}
use double_entry_ledger_engi.Store.{
  run, Env, Db, World, M, Error, Call, Runner, Event, call, now, new_uuid, begin, commit, emit,
  reads, write_tx, wrap,
}

module _ {D : Type 0} where
  -- The call succeeds whatever happens outside.
  pub record NeverFails {A : Type 0} (m : M D A) : Type 0 where
    pub succeeds : (w : World D) → (a : A) × ((m w).0 ≡ ok a)

  pub bind-NeverFails :
      {A B : Type 0} (m : M D A) (f : A → M D B)
      → NeverFails m
      → ((a : A) → NeverFails (f a))
      → NeverFails (m >>= f)
  unfolding run
  bind-NeverFails m f n k = record {
    succeeds = λ w.
        let p = n.succeeds w in let q = (k p.0).succeeds (m w).1 in (q.0, ground (arith, p.1, q.1));
  }

  pub pure-NeverFails : {A : Type 0} (a : A) → NeverFails (pure {S = World D} {E = Error D} a)
  unfolding run
  pure-NeverFails a = record { succeeds = λ w. (a, refl) }

module _ {D X : Type 0} (view : Db D → X) where
  -- The call leaves what `view` shows of the committed tables.
  pub record KeepsDb {A : Type 0} (m : M D A) : Type 0 where
    pub same_db : (w : World D) → view (m w).1.db ≡ view w.db

  -- The call returns an error only with that view as it was.
  pub record IsAtomic {A : Type 0} (m : M D A) : Type 0 where
    pub undone : (w : World D) (e : Error D) → (m w).0 ≡ err e → view (m w).1.db ≡ view w.db

  next-db :
      {A B : Type 0} (f : A → M D B) (d : X) (p : Result (Error D) A × World D)
      → ((a : A) → KeepsDb (f a))
      → view p.1.db ≡ d
      → view (next f p).1.db ≡ d
  next-db f d (ok a, t) h e = (h a).same_db t ∙ e
  next-db f d (err x, t) h e = e

  next-undone :
      {A B : Type 0} (f : A → M D B) (d : X) (p : Result (Error D) A × World D) (e : Error D)
      → ((a : A) → IsAtomic (f a))
      → view p.1.db ≡ d
      → (next f p).0 ≡ err e
      → view (next f p).1.db ≡ d
  next-undone f d (ok a, t) e h q x = (h a).undone t e x ∙ q
  next-undone f d (err y, t) e h q x = q

  pub bind-KeepsDb :
      {A B : Type 0} (m : M D A) (f : A → M D B)
      → KeepsDb m
      → ((a : A) → KeepsDb (f a))
      → KeepsDb (m >>= f)
  unfolding run
  bind-KeepsDb m f k h = record { same_db = λ w. next-db f (view w.db) (m w) h (k.same_db w) }

  pub bind-IsAtomic :
      {A B : Type 0} (m : M D A) (f : A → M D B)
      → KeepsDb m
      → ((a : A) → IsAtomic (f a))
      → IsAtomic (m >>= f)
  unfolding run
  bind-IsAtomic m f k h = record {
    undone = λ w e. next-undone f (view w.db) (m w) e h (k.same_db w);
  }

  pub wrap-KeepsDb : {A : Type 0} (t : String) (m : M D A) → KeepsDb m → KeepsDb (wrap t m)
  unfolding run
  wrap-KeepsDb t m k = record { same_db = λ w. k.same_db w }

  pub map_err-KeepsDb :
      {A : Type 0} (g : Error D → Error D) (m : M D A) → KeepsDb m → KeepsDb (map_err g m)
  unfolding run
  map_err-KeepsDb g m k = record { same_db = λ w. k.same_db w }

  pub KeepsDb-IsAtomic : {A : Type 0} (m : M D A) → KeepsDb m → IsAtomic m
  unfolding run
  KeepsDb-IsAtomic m k = record { undone = λ w e _. k.same_db w }

  pub pure-KeepsDb : {A : Type 0} (a : A) → KeepsDb (pure {S = World D} {E = Error D} a)
  unfolding run
  pure-KeepsDb a = record { same_db = λ w. refl }

  pub raise-KeepsDb : {A : Type 0} (e : Error D) → KeepsDb {A = A} (raise e)
  unfolding run
  raise-KeepsDb e = record { same_db = λ w. refl }

  pub lift-KeepsDb : {A : Type 0} (r : Result (Error D) A) → KeepsDb (lift r)
  unfolding run
  lift-KeepsDb r = record { same_db = λ w. refl }

  pub reads-KeepsDb : {A : Type 0} (r : Runner) (f : Db D → A) → KeepsDb (reads r f)
  unfolding run
  reads-KeepsDb r f = record { same_db = λ w. refl }

  pub write_tx-KeepsDb : (f : Db D → Db D) → KeepsDb (write_tx f)
  unfolding run
  write_tx-KeepsDb f = record { same_db = λ w. refl }

  pub NeverFails-IsAtomic : {A : Type 0} (m : M D A) → NeverFails m → IsAtomic m
  NeverFails-IsAtomic m n = record { undone = λ w e x. ground (arith, n.succeeds w) }

  pub if-KeepsDb :
      {A : Type 0} (b : Bool) (m n : M D A) → KeepsDb m → KeepsDb n → KeepsDb (if b then m else n)
  unfolding run
  if-KeepsDb true m n h k = h
  if-KeepsDb false m n h k = k

  pub if-IsAtomic :
      {A : Type 0} (b : Bool) (m n : M D A)
      → IsAtomic m
      → IsAtomic n
      → IsAtomic (if b then m else n)
  if-IsAtomic true m n h k = h
  if-IsAtomic false m n h k = k

  module _ (env : Env) where
    pub call-KeepsDb : (c : Call) → KeepsDb (call env c)
    unfolding run
    call-KeepsDb c = record { same_db = λ w. refl }

    pub now-KeepsDb : KeepsDb (now env)
    unfolding run
    now-KeepsDb = record { same_db = λ w. refl }

    pub new_uuid-KeepsDb : KeepsDb (new_uuid env)
    unfolding run
    new_uuid-KeepsDb = record { same_db = λ w. refl }

    pub begin-KeepsDb : KeepsDb (begin env)
    unfolding run
    begin-KeepsDb = record { same_db = λ w. refl }

    pub emit-KeepsDb : (e : Event D) → KeepsDb (emit env e)
    unfolding run
    emit-KeepsDb e = record { same_db = λ w. ground arith }

    -- A commit is the last step that can fail.
    pub commit_then-IsAtomic :
        {B : Type 0} (t : String) (k : M D B)
        → NeverFails k
        → IsAtomic (wrap t (commit env) >>= λ _. k)
    unfolding run
    commit_then-IsAtomic t k n = record {
      undone = λ w e x. ground (arith, n.succeeds (record w { db = w.tx; tick = suc w.tick }));
    }

    pub commit-IsAtomic : IsAtomic (commit env)
    unfolding run
    commit-IsAtomic = record { undone = λ w e x. ground arith }

pub ruleset keeps_db = (
  pure-KeepsDb, raise-KeepsDb, lift-KeepsDb, reads-KeepsDb, write_tx-KeepsDb, if-KeepsDb,
  call-KeepsDb, now-KeepsDb, new_uuid-KeepsDb, begin-KeepsDb, emit-KeepsDb, wrap-KeepsDb,
  map_err-KeepsDb, bind-KeepsDb,
)
