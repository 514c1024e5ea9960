-- ===== src/Concurrency/Locked.antt =====
-- What LockMultipleAccountsForUpdate has done when it succeeds.
use double_entry_ledger_engi.Decimal.{Decimal}
use double_entry_ledger_engi.Processor.Frames.{lock_account-OnlyReads}
use double_entry_ledger_engi.Store.Reading.{bind_ok}
use double_entry_ledger_engi.Accounts.{is_account}
use double_entry_ledger_engi.Concurrency.Locks.{any-unique_strings, later}
use double_entry_ledger_engi.Concurrency.{
  lock_account_for_update, lock_all, lock_multiple_accounts_for_update, lock_parsed, unique_strings,
  sort_strings,
}
use double_entry_ledger_engi.Store.{Env, Db, Uuid, World, run}
use double_entry_ledger_engi.Base.{
  String, List, All, any, same, ◌≡◌, ok, some, true, Option-cases, ◌∷◌, Bool-cases, [], inl,
  same_iff, ◌∙◌, arith, refl, subst, inr, sym,
}

-- The text is the UUID of an account in the table.
abbrev pub IsLockable : {D : Type 0} → Env → Db D → String → Type 0
IsLockable env db account =
    (id : Uuid) × (env.parse account ≡ some id) × (any (is_account id) db.accounts ≡ true)

All-any :
    (P : String → Type 0) (ss : List String) (s : String) → All P ss → any (same s) ss ≡ true → P s
All-any P [] s h e = absurd cc
All-any P (t ∷ ss) s h e = elim (Bool-cases (same s t)) [
  | inl y ↦ subst P (sym ((same_iff s t).0 y)) h.0
  | inr n ↦ All-any P ss s h.1 (rw n at e)
]

All-of_any :
    (P : String → Type 0) (ss : List String)
    → ((s : String) → any (same s) ss ≡ true → P s)
    → All P ss
All-of_any P [] f = tt
All-of_any P (t ∷ ss) f =
    (f t (rw ((same_iff t t).1 refl) refl), All-of_any P ss (λ s h. f s (later (same s t) _ h)))

from_unique :
    (P : String → Type 0) (ss : List String) → All P (unique_strings (sort_strings ss)) → All P ss
from_unique P ss h = All-of_any P ss (λ s e. All-any P _ s h (any-unique_strings (same s) ss ∙ e))

module _ {D : Type 0} ⦃dec : Decimal D⦄ (env : Env) where
  lock_account_for_update-IsLockable :
      (account : String) (w : World D)
      → (lock_account_for_update env account w).0 ≡ ok tt
      → IsLockable env w.tx account
  unfolding lock_account_for_update lock_parsed run
  lock_account_for_update-IsLockable account w h = elim (Option-cases (env.parse account)) [
    | inl n ↦ absurd (ground arith)
    | inr (id, e) ↦ (id, e, ground arith)
  ]

  lock_all_ok :
      (accounts : List String) (db : Db D) (w : World D)
      → w.tx ≡ db
      → (lock_all env accounts w).0 ≡ ok tt
      → All (IsLockable env db) accounts
  unfolding lock_all
  lock_all_ok [] db w e h = tt
  lock_all_ok (account ∷ rest) db w e h =
      let (u, v, first, stays, others) =
        bind_ok _ (λ _. lock_all env rest) w tt (lock_account-OnlyReads env account) h in
      (
        subst (λ d. IsLockable env d account) e
            (lock_account_for_update-IsLockable account w first),
        lock_all_ok rest db v (stays ∙ e) others,
      )

  -- Locking several accounts succeeds only when each of those asked for is the UUID of an account in
  -- the tables of the open transaction: none of them is left out, whatever their order and however
  -- often each is named.
  pub lock_multiple_accounts_for_update-All :
      (accounts : List String) (w : World D)
      → (lock_multiple_accounts_for_update env accounts w).0 ≡ ok tt
      → All (IsLockable env w.tx) accounts
  unfolding lock_multiple_accounts_for_update
  lock_multiple_accounts_for_update-All [] w h = tt
  lock_multiple_accounts_for_update-All (a ∷ rest) w h =
      from_unique (IsLockable env w.tx) (a ∷ rest) (lock_all_ok _ w.tx w refl h)
