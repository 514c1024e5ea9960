-- ===== src/Balance/Current.antt =====
-- What the balance of an account means, and that the code computes it.
use double_entry_ledger_engi.Decimal.Group.{nil-plus}
use double_entry_ledger_engi.Domain.{Balance, TransactionState, settled}
use double_entry_ledger_engi.Balance.Sums.{row_sum, credits-sub-debits, matching-split}
use double_entry_ledger_engi.Base.{
  ℕ, Bool, String, Option, ◌||◌, ◌&&◌, some, ◌≡◌, none, ok, leb, ltb, false, true, refl, ap, ap₂,
  arith, ◌∙◌, sym, ◌⊎◌, inl, inr, ◌≢◌, Option-cases,
}
use double_entry_ledger_engi.Balance.{
  current_balance, state_settled, matching, state_pending, start_balance, settled_after, start_time,
  latest_snapshot, credits, debits, is_pending, get_snapshot, compute_settled_balance,
  compute_pending_amounts, balance_of, get_current_balance,
}
use double_entry_ledger_engi.Store.{
  Db, TransactionRow, Uuid, run, Env, Runner, SnapshotRow, World, tables, pool, in_tx,
  select_snapshot,
}
use double_entry_ledger_engi.Decimal.{Decimal, DecimalLaws}

-- An entry counts while its transaction is settled or pending.
abbrev pub is_live : TransactionRow → Bool
is_live t = state_settled t.state || state_pending t.state

abbrev settled_until : ℕ → TransactionRow → Bool
settled_until time t = state_settled t.state && leb t.posted_at time

until_or_after : (a : Bool) (x t : ℕ) → a ≡ ((a && leb x t) || (a && ltb t x))
until_or_after true x t = ground arith
until_or_after false x t = refl

until_not_after : (a : Bool) (x t : ℕ) → ((a && leb x t) && (a && ltb t x)) ≡ false
until_not_after true x t = ground arith
until_not_after false x t = refl

and_true : (a : Bool) → (a && true) ≡ a
and_true true = refl
and_true false = refl

not_both : (s : TransactionState) → (state_settled s && state_pending s) ≡ false
not_both settled = refl
not_both _ = refl

matching_ext :
    {D : Type 0} (db : Db D) (account : Uuid) (currency : String) (p q : TransactionRow → Bool)
    → ((t : TransactionRow) → p t ≡ q t)
    → matching db account currency p ≡ matching db account currency q
matching_ext db account currency p q h = ap (matching db account currency) (λ i t. h t i)

module _ {D : Type 0} ⦃dec : Decimal D⦄ where
  -- The settled part that the code adds up.
  abbrev settled_part :
      (env : Env) (db : Db D) (account : Uuid) (currency : String) → Option (SnapshotRow D) → D
  settled_part env db account currency s = dec.add (start_balance env s) (
      dec.sub (credits (matching db account currency (settled_after (start_time env s))))
        (debits (matching db account currency (settled_after (start_time env s)))))

  parts_of_balance :
      (env : Env) (r : Runner) (locking : Bool) (account : Uuid) (currency : String) (w : World D)
      (b : Balance D)
      → (current_balance env r locking account currency w).0 ≡ ok b
      → ((b.settled_balance ≡ settled_part env (tables r w) account currency none)
          ⊎ (b.settled_balance
              ≡ settled_part env
                  (tables r w)
                  account
                  currency
                  (latest_snapshot (tables r w) account currency)))
        × (b.available_balance
            ≡ dec.sub
                (dec.add b.settled_balance
                  (credits (matching (tables r w) account currency is_pending)))
                (debits (matching (tables r w) account currency is_pending)))
  unfolding current_balance run get_snapshot compute_settled_balance compute_pending_amounts
      balance_of
  parts_of_balance env pool true account currency w b h = ground arith
  parts_of_balance env pool false account currency w b h = ground arith
  parts_of_balance env in_tx true account currency w b h = ground arith
  parts_of_balance env in_tx false account currency w b h = ground arith

  parts_without_snapshot :
      (env : Env) (account : Uuid) (currency : String) (w : World D) (b : Balance D)
      → (get_current_balance env account currency w).0 ≡ ok b
      → (b.settled_balance ≡ settled_part env w.db account currency none)
        × (b.available_balance
            ≡ dec.sub
                (dec.add b.settled_balance (credits (matching w.db account currency is_pending)))
                (debits (matching w.db account currency is_pending)))
        × ((latest_snapshot w.db account currency ≡ none)
            ⊎ (env.fault w.tick select_snapshot ≢ none))
  unfolding get_current_balance current_balance run get_snapshot compute_settled_balance
      compute_pending_amounts balance_of
  parts_without_snapshot env account currency w b h = (
    ground arith,
    ground arith,
    elim (Option-cases (latest_snapshot w.db account currency)) [
      | inl n ↦ inl n
      | inr (s, e) ↦ inr (λ f. absurd (ground arith))
    ],
  )

module _ {D : Type 0} ⦃dec : Decimal D⦄ (laws : DecimalLaws D dec) where
  open laws use {
    Number, value, nil, plus, negate, plus_assoc, plus_comm, value-zero, value-add, value-sub,
  }

  abbrev pub live_balance : Db D → Uuid → String → Number
  live_balance db account currency = row_sum laws (matching db account currency is_live)

  abbrev pub settled_balance_of : Db D → Uuid → String → Number
  settled_balance_of db account currency =
      row_sum laws (matching db account currency (λ t. state_settled t.state))

  -- A snapshot holds what the settled transactions posted up to its time add up to.
  abbrev pub AgreesWith : Db D → Uuid → String → Option (SnapshotRow D) → Type 0
  AgreesWith db account currency none = Unit
  AgreesWith db account currency (some s) =
      value s.settled_balance
      ≡ row_sum laws (matching db account currency (settled_until s.snapshot_at))

  from_snapshot :
      (db : Db D) (account : Uuid) (currency : String) (s : Option (SnapshotRow D)) (env : Env)
      → AgreesWith db account currency s
      → plus
          (value (start_balance env s))
          (row_sum laws (matching db account currency (settled_after (start_time env s))))
        ≡ settled_balance_of db account currency
  from_snapshot db account currency none env h =
      ap₂ plus value-zero (
        ap (row_sum laws)
          (matching_ext db account currency _ _ (λ t. and_true (state_settled t.state))))
      ∙ nil-plus laws _
  from_snapshot db account currency (some s) env h =
      ap
        (λ x.
          plus x (row_sum laws (matching db account currency (settled_after (some s.snapshot_at)))))
        h
      ∙ sym (
          matching-split laws db account currency (settled_until s.snapshot_at)
            (settled_after (some s.snapshot_at)) _
            (λ t. until_or_after (state_settled t.state) t.posted_at s.snapshot_at)
            (λ t. until_not_after (state_settled t.state) t.posted_at s.snapshot_at))

  value_available :
      (db : Db D) (account : Uuid) (currency : String) (x : D)
      → value x ≡ settled_balance_of db account currency
      → value (
          dec.sub
            (dec.add x (credits (matching db account currency is_pending)))
            (debits (matching db account currency is_pending)))
        ≡ live_balance db account currency
  value_available db account currency x h =
      value-sub _ _
      ∙ ap (λ y. plus y (negate (value (debits (matching db account currency is_pending)))))
          (value-add _ _)
      ∙ plus_assoc _ _ _
      ∙ ap₂ plus h (sym (value-sub _ _) ∙ credits-sub-debits laws _)
      ∙ sym (
          matching-split laws db account currency (λ t. state_settled t.state) is_pending _
            (λ _. refl) (λ t. not_both t.state))

  value_settled :
      (env : Env) (db : Db D) (account : Uuid) (currency : String) (s : Option (SnapshotRow D))
      → AgreesWith db account currency s
      → value (settled_part env db account currency s) ≡ settled_balance_of db account currency
  value_settled env db account currency s h =
      value-add _ _
      ∙ ap (plus (value (start_balance env s))) (credits-sub-debits laws _)
      ∙ from_snapshot db account currency s env h

  -- The same of every balance, under a condition on the newest snapshot.
  pub current_balance_agrees :
      (env : Env) (r : Runner) (locking : Bool) (account : Uuid) (currency : String) (w : World D)
      (b : Balance D)
      → AgreesWith (tables r w) account currency (latest_snapshot (tables r w) account currency)
      → (current_balance env r locking account currency w).0 ≡ ok b
      → (value b.available_balance ≡ live_balance (tables r w) account currency)
        × (value b.settled_balance ≡ settled_balance_of (tables r w) account currency)
  current_balance_agrees env r locking account currency w b agrees h =
      let (settled_is, available_is) = parts_of_balance env r locking account currency w b h in
      let whole = settled_ok settled_is in
      (
        ap value available_is
            ∙ value_available (tables r w) account currency b.settled_balance whole,
        whole,
      )
    where
      settled_ok :
          (b.settled_balance ≡ settled_part env (tables r w) account currency none)
            ⊎ (b.settled_balance
                ≡ settled_part env
                    (tables r w)
                    account
                    currency
                    (latest_snapshot (tables r w) account currency))
          → value b.settled_balance ≡ settled_balance_of (tables r w) account currency
      settled_ok (inl e) = ap value e ∙ value_settled env (tables r w) account currency none tt
      settled_ok (inr e) =
          ap value e
          ∙ value_settled env (tables r w) account currency
              (latest_snapshot (tables r w) account currency) agrees

  -- A balance that GetCurrentBalance returns is what the live entries of the account in the currency
  -- add up to, its settled part what the settled ones do. It never stands on a snapshot: there is
  -- none for the account in the currency, or the query for it fails.
  pub get_current_balance-live_balance :
      (env : Env) (account : Uuid) (currency : String) (w : World D) (b : Balance D)
      → (get_current_balance env account currency w).0 ≡ ok b
      → (value b.available_balance ≡ live_balance w.db account currency)
        × (value b.settled_balance ≡ settled_balance_of w.db account currency)
        × ((latest_snapshot w.db account currency ≡ none)
            ⊎ (env.fault w.tick select_snapshot ≢ none))
  unfolding get_current_balance
  get_current_balance-live_balance env account currency w b h =
      let (settled_is, available_is, fresh) = parts_without_snapshot env account currency w b h in
      let whole = ap value settled_is ∙ value_settled env w.db account currency none tt in
      (
        ap value available_is ∙ value_available w.db account currency b.settled_balance whole,
        whole,
        fresh,
      )
