-- ===== src/Query/Meets.antt =====
-- What the transactions of a page of ListTransactions have, told from the answer alone.
use double_entry_ledger_engi.Query.Pages.{entries_of, ==_eq}
use double_entry_ledger_engi.Query.Listed.{account_of}
use double_entry_ledger_engi.Ledger.{scan_entry}
use double_entry_ledger_engi.Query.{
  TransactionFilter, all, state_text, unless_nil, has_metadata, joins,
}
use double_entry_ledger_engi.Domain.{Transaction, TransactionState, Entry}
use double_entry_ledger_engi.Decimal.{Decimal}
use double_entry_ledger_engi.Store.{Env, Uuid, EntryRow, Db, TransactionRow}
use double_entry_ledger_engi.Base.{
  Bool, Option, List, String, some, ℕ, ◌&&◌, none, ◌∷◌, ◌≡◌, ◌≤◌, All, any, false, leb, same, true,
  [], arith, refl, same_iff, ◌==◌, map, filter, Bool-cases, inl, inr, ap, subst,
}

-- The condition of a filter that is not nil.
abbrev pub Given : {A : Type 0} → Option A → (A → Type 0) → Type 0
Given none P = Unit
Given (some a) P = P a

module _ {D : Type 0} where
  abbrev pub of_text : Env → String → Entry D → Bool
  of_text env account e = same_account e.account_id (env.parse account)
    where
      same_account : String → Option Uuid → Bool
      same_account text none = false
      same_account text (some id) = same text (env.to_string id)

  -- One entry is of the account and in the currency, where these are given.
  abbrev pub HasEntry : Env → Option String → Option String → List (Entry D) → Type 0
  HasEntry env none none es = Unit
  HasEntry env none (some code) es = any (λ e. same e.currency_code code) es ≡ true
  HasEntry env (some account) none es = any (of_text env account) es ≡ true
  HasEntry env (some account) (some code) es =
      any (λ e. of_text env account e && same e.currency_code code) es ≡ true

  abbrev pub Meets : Env → TransactionFilter → Transaction D → Type 0
  Meets env filter t =
      HasEntry env filter.account_id filter.currency t.entries
      × Given filter.state (λ s. state_text t.state ≡ state_text s)
      × Given filter.start_date (λ time. time ≤ t.posted_at)
      × Given filter.end_date (λ time. t.posted_at ≤ time)
      × All (λ pair. has_metadata t.metadata pair ≡ true) filter.metadata

  -- Each transaction may stand before all that follow it.
  abbrev pub Before : Bool → Transaction D → Transaction D → Type 0
  Before true a b = a.posted_at ≤ b.posted_at
  Before false a b = b.posted_at ≤ a.posted_at

  abbrev pub InOrder : Bool → List (Transaction D) → Type 0
  InOrder ascending [] = Unit
  InOrder ascending (t ∷ ts) = All (Before ascending t) ts × InOrder ascending ts

-- The account of a filter, where there is one, is a UUID.
abbrev pub IsParsed : Env → Option String → Type 0
IsParsed env account = Given account (λ a. (id : Uuid) × (env.parse a ≡ some id))

pub and_true : (a b : Bool) → (a && b) ≡ true → (a ≡ true) × (b ≡ true)
and_true true b h = (refl, h)
and_true false b h = absurd cc

pub all-true :
    {A : Type 0} (p : A → Bool) (xs : List A) → all p xs ≡ true → All (λ x. p x ≡ true) xs
all-true p [] h = tt
all-true p (x ∷ xs) h = let (a, b) = and_true (p x) (all p xs) h in (a, all-true p xs b)

pub given_state :
    (o : Option TransactionState) (state : TransactionState)
    → unless_nil o (λ s. same (state_text state) (state_text s)) ≡ true
    → Given o (λ s. state_text state ≡ state_text s)
given_state none state h = tt
given_state (some s) state h = (same_iff (state_text state) (state_text s)).0 h

pub given_start :
    (o : Option ℕ) (time : ℕ) → unless_nil o (λ t. leb t time) ≡ true → Given o (λ t. t ≤ time)
given_start none time h = tt
given_start (some t) time h = ground arith

pub given_end :
    (o : Option ℕ) (time : ℕ) → unless_nil o (λ t. leb time t) ≡ true → Given o (λ t. time ≤ t)
given_end none time h = tt
given_end (some t) time h = ground arith

module _ {D : Type 0} ⦃dec : Decimal D⦄ (env : Env) where
  -- An entry of the joined rows is among the entries of the answer.
  any-entries :
      (id : Uuid) (p : EntryRow D → Bool) (q : Entry D → Bool)
      → ((e : EntryRow D) → p e ≡ true → q (scan_entry env e) ≡ true)
      → (es : List (EntryRow D)) → any (λ (e : EntryRow D). e.transaction_id == id && p e) es ≡ true
      → any q (map (scan_entry env) (filter (λ (e : EntryRow D). e.transaction_id == id) es)) ≡ true
  any-entries id p q f [] h = absurd cc
  any-entries id p q f (e ∷ es) h = elim (Bool-cases (e.transaction_id == id)) [
    | inl here ↦ elim (Bool-cases (p e)) [
      | inl holds ↦ ground (arith, f e holds)
      | inr fails ↦ ground (arith, any-entries id p q f es)
    ]
    | inr other ↦ ground (arith, any-entries id p q f es)
  ]

  of_text-true :
      (account : String) (id : Uuid) (e : EntryRow D)
      → env.parse account ≡ some id
      → (e.account_id == id) ≡ true
      → of_text env account (scan_entry env e) ≡ true
  of_text-true account id e parsed h =
      rw (parsed, of_text)
        ((same_iff (env.to_string e.account_id) (env.to_string id)).1
          (ap env.to_string (==_eq e.account_id id h)))

  pub entry_met :
      (db : Db D) (account currency : Option String) (row : TransactionRow)
      → IsParsed env account
      → joins db (account_of env account) currency row ≡ true
      → HasEntry env account currency (map (scan_entry env) (entries_of db row.transaction_id))
  entry_met db none none row parsed h = tt
  entry_met db none (some code) row parsed h =
      any-entries row.transaction_id (λ e. true && same e.currency_code code) _ (λ e k. k)
        db.entries h
  entry_met db (some account) none row (id, e) h =
      any-entries row.transaction_id (λ r. r.account_id == id && true) (of_text env account)
        (λ r k. of_text-true account id r e (and_true (r.account_id == id) true k).0) db.entries
        (subst (λ o. joins db o none row ≡ true) e h)
  entry_met db (some account) (some code) row (id, e) h =
      any-entries row.transaction_id (λ r. r.account_id == id && same r.currency_code code)
        (λ x. of_text env account x && same x.currency_code code)
        (λ r k.
          let (a, c) = and_true (r.account_id == id) (same r.currency_code code) k in
          rw (of_text-true account id r e a) c)
        db.entries (subst (λ o. joins db o (some code) row ≡ true) e h)
