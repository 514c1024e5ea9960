-- ===== src/Store/Success.antt =====
-- Calls that succeed, and what succeeds when no call fails.
use double_entry_ledger_engi.Base.{Result, String, pure, ℕ, ◌≡◌, none, ok, next, refl, ◌>>=◌, err}
use native.Mathlib.Omega.{arith}
use double_entry_ledger_engi.Store.{
  Env, M, run, World, begin_tx, publish, commit_tx, begin, commit, wrap, emit, Error, Call, Event,
  Uuid, now, new_uuid,
}

-- No call fails.
abbrev pub IsReliable : Env → Type 0
IsReliable env = (n : ℕ) (c : Call) → env.fault n c ≡ none

module _ {D : Type 0} where
  abbrev pub Succeeds : {A : Type 0} → M D A → World D → Type 0
  Succeeds {A = A} m w = (a : A) × ((m w).0 ≡ ok a)

  after_next :
      {A B : Type 0} (f : A → M D B) (p : Result (Error D) A × World D)
      → (a : A) × (p.0 ≡ ok a)
      → ((a : A) → p.0 ≡ ok a → Succeeds (f a) p.1)
      → (b : B) × ((next f p).0 ≡ ok b)
  after_next f (ok a, w) first rest = rest a refl
  after_next f (err e, w) first rest = absurd (cc (first.1))

  -- A chain succeeds where its first part does, and the rest does after it.
  pub bind-Succeeds :
      {A B : Type 0} (m : M D A) (f : A → M D B) (w : World D)
      → Succeeds m w
      → ((a : A) → (m w).0 ≡ ok a → Succeeds (f a) (m w).1)
      → Succeeds (m >>= f) w
  unfolding run
  bind-Succeeds m f w first rest = after_next f (m w) first rest

  pub pure-Succeeds : {A : Type 0} (a : A) (w : World D) → Succeeds (pure {E = Error D} a) w
  unfolding pure
  pure-Succeeds a w = (a, refl)

  pub wrap-Succeeds :
      {A : Type 0} (t : String) (m : M D A) (w : World D) → Succeeds m w → Succeeds (wrap t m) w
  unfolding run
  wrap-Succeeds t m w (a, h) = (a, rw h refl)

  module _ (env : Env) where
    pub emit-Succeeds :
        (t : String) (e : Event D) (w : World D) → IsReliable env → Succeeds (wrap t (emit env e)) w
    unfolding run
    emit-Succeeds t e w reliable = let no_fault = reliable w.tick publish in (tt, ground arith)

    pub commit-Succeeds :
        (t : String) (w : World D) → IsReliable env → Succeeds (wrap t (commit env)) w
    unfolding run
    commit-Succeeds t w reliable = let no_fault = reliable w.tick commit_tx in (tt, ground arith)

    pub begin-Succeeds :
        (t : String) (w : World D) → IsReliable env → Succeeds (wrap t (begin env)) w
    unfolding run
    begin-Succeeds t w reliable = let no_fault = reliable w.tick begin_tx in (tt, ground arith)

    pub new_id : (v : World D) (id : Uuid) → (new_uuid env v).0 ≡ ok id → env.new_uuid v.tick ≡ id
    unfolding run
    new_id v id h = cc

    pub new_uuid-Succeeds : (v : World D) → Succeeds (new_uuid env) v
    unfolding run
    new_uuid-Succeeds v = (env.new_uuid v.tick, refl)

    pub now-Succeeds : (v : World D) → Succeeds (now env) v
    unfolding run
    now-Succeeds v = (env.now v.tick, refl)
