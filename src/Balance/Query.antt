-- ===== src/Balance/Query.antt =====
-- The SQL of internal/service/balance: which rows a query joins and selects, and its aggregates.
use double_entry_ledger_engi.Base.{
  ℕ, Bool, true, false, String, Option, none, some, List, [], ◌∷◌, ◌==◌, same, ltb, leb, ◌&&◌,
  if◌then◌else◌, filter, find, length,
}
use double_entry_ledger_engi.Decimal.{Decimal}
use double_entry_ledger_engi.Domain.{EntryType, debit, credit, TransactionState, settled, pending}
use double_entry_ledger_engi.Store.{Uuid, TransactionRow, EntryRow, SnapshotRow, Db}
use double_entry_ledger_engi.Ledger.{has_id}

abbrev pub state_settled : TransactionState → Bool
state_settled settled = true
state_settled _ = false

abbrev pub state_pending : TransactionState → Bool
state_pending pending = true
state_pending _ = false

-- t.state = 'pending'
abbrev pub is_pending : TransactionRow → Bool
is_pending t = state_pending t.state

-- posted_at > startTime, where there is one
abbrev pub after : Option ℕ → ℕ → Bool
after none posted_at = true
after (some start) posted_at = ltb start posted_at

-- t.state = 'settled' AND t.posted_at > $3
abbrev pub settled_after : Option ℕ → TransactionRow → Bool
settled_after start t = state_settled t.state && after start t.posted_at

abbrev pub settled_between : Option ℕ → ℕ → TransactionRow → Bool
settled_between start as_of t =
    state_settled t.state && leb t.posted_at as_of && after start t.posted_at

abbrev pub pending_until : ℕ → TransactionRow → Bool
pending_until as_of t = state_pending t.state && leb t.posted_at as_of

-- The INNER JOIN on the primary key: an entry meets one transaction at most.
abbrev pub joined : (TransactionRow → Bool) → Option TransactionRow → Bool
joined p none = false
joined p (some t) = p t

module _ {D : Type 0} where
  abbrev pub of_account : Uuid → String → EntryRow D → Bool
  of_account account currency e = e.account_id == account && same e.currency_code currency

  abbrev pub matches :
      List TransactionRow → Uuid → String → (TransactionRow → Bool) → EntryRow D → Bool
  matches ts account currency p e =
      of_account account currency e && joined p (find (has_id e.transaction_id) ts)

  abbrev pub matching : Db D → Uuid → String → (TransactionRow → Bool) → List (EntryRow D)
  matching db account currency p = filter (matches db.transactions account currency p) db.entries

  abbrev pub count : List (EntryRow D) → ℕ
  count = length

  abbrev of_snapshot : Uuid → String → SnapshotRow D → Bool
  of_snapshot account currency s = s.account_id == account && same s.currency_code currency

  -- ORDER BY snapshot_at DESC LIMIT 1
  abbrev pub newest : List (SnapshotRow D) → Option (SnapshotRow D)
  newest [] = none
  newest (s ∷ rest) = elim (newest rest) [
    | none ↦ some s
    | some t ↦ if ltb s.snapshot_at t.snapshot_at then some t else some s
  ]

  abbrev pub latest_snapshot : Db D → Uuid → String → Option (SnapshotRow D)
  latest_snapshot db account currency =
      newest (filter (of_snapshot account currency) db.balance_snapshots)

  abbrev pub snapshot_before : Db D → Uuid → String → ℕ → Option (SnapshotRow D)
  snapshot_before db account currency as_of =
      newest (
        filter (λ s. of_snapshot account currency s && leb s.snapshot_at as_of)
          db.balance_snapshots)

  module _ ⦃dec : Decimal D⦄ where
    -- CASE WHEN e.entry_type = 'credit' THEN e.amount ELSE 0 END
    abbrev pub credit_amount : EntryType → D → D
    credit_amount credit a = a
    credit_amount _ a = dec.zero

    abbrev pub debit_amount : EntryType → D → D
    debit_amount debit a = a
    debit_amount _ a = dec.zero

    -- COALESCE(SUM(...), 0)
    abbrev pub credits : List (EntryRow D) → D
    credits [] = dec.zero
    credits (e ∷ es) = dec.add (credit_amount e.entry_type e.amount) (credits es)

    abbrev pub debits : List (EntryRow D) → D
    debits [] = dec.zero
    debits (e ∷ es) = dec.add (debit_amount e.entry_type e.amount) (debits es)
