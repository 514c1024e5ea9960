-- ===== src/Store/Reading.antt =====
-- Calls that only read: both the committed tables and those of the open transaction stay.
use double_entry_ledger_engi.Store.{
  Db, M, run, Env, Error, Runner, World, Call, now, reads, wrap, call,
}
use double_entry_ledger_engi.Base.{
  ◌>>=◌, if◌then◌else◌, Bool, Result, String, ap, pure, raise, ◌≡◌, next, refl, true, false, ok,
  ◌∙◌, err, arith,
}
use double_entry_ledger_engi.Store.Frame.{KeepsDb}

module _ {D : Type 0} where
  pub record OnlyReads {A : Type 0} (m : M D A) : Type 0 where
    pub same_tables : (w : World D) → ((m w).1.db ≡ w.db) × ((m w).1.tx ≡ w.tx)

  next-tables :
      {A B : Type 0} (f : A → M D B) (d t : Db D) (p : Result (Error D) A × World D)
      → ((a : A) → OnlyReads (f a))
      → (p.1.db ≡ d) × (p.1.tx ≡ t)
      → ((next f p).1.db ≡ d) × ((next f p).1.tx ≡ t)
  next-tables f d t (ok a, w) h e = (((h a).same_tables w).0 ∙ e.0, ((h a).same_tables w).1 ∙ e.1)
  next-tables f d t (err x, w) h e = e

  pub bind-OnlyReads :
      {A B : Type 0} (m : M D A) (f : A → M D B)
      → OnlyReads m
      → ((a : A) → OnlyReads (f a))
      → OnlyReads (m >>= f)
  unfolding run
  bind-OnlyReads m f k h = record {
    same_tables = λ w. next-tables f w.db w.tx (m w) h (k.same_tables w);
  }

  pub wrap-OnlyReads : {A : Type 0} (t : String) (m : M D A) → OnlyReads m → OnlyReads (wrap t m)
  unfolding run
  wrap-OnlyReads t m k = record { same_tables = λ w. k.same_tables w }

  pub pure-OnlyReads : {A : Type 0} (a : A) → OnlyReads (pure {S = World D} {E = Error D} a)
  unfolding run
  pure-OnlyReads a = record { same_tables = λ w. (refl, refl) }

  pub raise-OnlyReads : {A : Type 0} (e : Error D) → OnlyReads {A = A} (raise e)
  unfolding run
  raise-OnlyReads e = record { same_tables = λ w. (refl, refl) }

  pub reads-OnlyReads : {A : Type 0} (r : Runner) (f : Db D → A) → OnlyReads (reads r f)
  unfolding run
  reads-OnlyReads r f = record { same_tables = λ w. (refl, refl) }

  pub if-OnlyReads :
      {A : Type 0} (b : Bool) (m n : M D A)
      → OnlyReads m
      → OnlyReads n
      → OnlyReads (if b then m else n)
  if-OnlyReads true m n h k = h
  if-OnlyReads false m n h k = k

  pub call-OnlyReads : (env : Env) (c : Call) → OnlyReads (call env c)
  unfolding run
  call-OnlyReads env c = record { same_tables = λ w. (refl, refl) }

  pub now-OnlyReads : (env : Env) → OnlyReads (now env)
  unfolding run
  now-OnlyReads env = record { same_tables = λ w. (refl, refl) }

  pub OnlyReads-KeepsDb :
      {A X : Type 0} (view : Db D → X) (m : M D A) → OnlyReads m → KeepsDb view m
  OnlyReads-KeepsDb view m k = record { same_db = λ w. ap view ((k.same_tables w).0) }

  step_ok :
      {A B : Type 0} (f : A → M D B) (b : B) (t : Db D) (p : Result (Error D) A × World D)
      → p.1.tx ≡ t
      → (next f p).0 ≡ ok b
      → (a : A) × (w : World D) × (p.0 ≡ ok a) × (w.tx ≡ t) × ((f a w).0 ≡ ok b)
  step_ok f b t (ok a, w) s h = (a, w, refl, s, h)
  step_ok f b t (err e, w) s h = absurd cc

  -- A chain that succeeds after a call that only reads: both did, on the same open transaction.
  pub bind_ok :
      {A B : Type 0} (m : M D A) (f : A → M D B) (w : World D) (b : B)
      → OnlyReads m
      → ((m >>= f) w).0 ≡ ok b
      → (a : A) × (v : World D) × ((m w).0 ≡ ok a) × (v.tx ≡ w.tx) × ((f a v).0 ≡ ok b)
  unfolding run
  bind_ok m f w b k h = step_ok f b w.tx (m w) ((k.same_tables w).1) h

  -- A chain that succeeds: both parts did.
  pub next_ok :
      {A B : Type 0} (m : M D A) (f : A → M D B) (w : World D) (b : B)
      → ((m >>= f) w).0 ≡ ok b
      → (a : A) × (v : World D) × ((m w).0 ≡ ok a) × ((f a v).0 ≡ ok b)
  unfolding run
  next_ok {A = A} {B = B} m f w b = go (m w)
    where
      go :
          (p : Result (Error D) A × World D)
          → (next f p).0 ≡ ok b
          → (a : A) × (v : World D) × (p.0 ≡ ok a) × ((f a v).0 ≡ ok b)
      go (ok a, v) h = (a, v, refl, h)
      go (err e, v) h = absurd cc

  -- The same, with the states between.
  pub next_run :
      {A B : Type 0} (m : M D A) (f : A → M D B) (w : World D) (b : B)
      → ((m >>= f) w).0 ≡ ok b
      → (a : A) × ((m w).0 ≡ ok a) × ((f a (m w).1).0 ≡ ok b) × (((m >>= f) w).1 ≡ (f a (m w).1).1)
  unfolding run
  next_run {A = A} {B = B} m f w b = go (m w)
    where
      go :
          (p : Result (Error D) A × World D)
          → (next f p).0 ≡ ok b
          → (a : A) × (p.0 ≡ ok a) × ((f a p.1).0 ≡ ok b) × ((next f p).1 ≡ (f a p.1).1)
      go (ok a, v) h = (a, refl, h, refl)
      go (err e, v) h = absurd cc

  pub wrap_ok :
      {A : Type 0} (t : String) (m : M D A) (w : World D) (a : A)
      → (wrap t m w).0 ≡ ok a
      → (m w).0 ≡ ok a
  unfolding run
  wrap_ok t m w a h = ground arith

pub ruleset only_reads = (
  pure-OnlyReads, raise-OnlyReads, reads-OnlyReads, if-OnlyReads, call-OnlyReads, now-OnlyReads,
  wrap-OnlyReads, bind-OnlyReads,
)
