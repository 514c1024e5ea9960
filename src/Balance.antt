-- ===== src/Balance.antt =====
-- internal/service/balance: the balance of an account in a currency, from its entries and the latest
-- snapshot. The database adds NUMERIC columns exactly, so its sums are those of the decimals.
mod Query
pub mod Sums
pub mod Current
pub mod Multi
pub use Query.*
use double_entry_ledger_engi.Base.{
  ℕ, ⊤, ◌+◌, Bool, true, false, String, Option, none, some, List, [], ◌∷◌, Result, ok, err, ◌>>=◌,
  ◌>>◌, pure, ltb, leb, ◌&&◌, if◌then◌else◌, is_some, not, raise,
}
use double_entry_ledger_engi.Decimal.{Decimal}
use double_entry_ledger_engi.Domain.{Balance, TransactionState, settled, pending}
use double_entry_ledger_engi.Store.{
  Uuid, TransactionRow, Db, SnapshotRow, World, Env, M, Runner, pool, in_tx, tables, reads, call,
  now, wrap, select_snapshot, sum_settled, sum_pending, driver, pg_error,
}

-- SQLSTATE 42703
abbrev undefined_column : String
undefined_column = "42703"

module _ {D : Type 0} ⦃dec : Decimal D⦄ (env : Env) where
  -- A failed or empty query of the snapshot is logged and read as no snapshot.
  unfoldable pub get_snapshot :
      Runner → (Db D → Option (SnapshotRow D)) → M D (Option (SnapshotRow D))
  get_snapshot r f w = elim (call env select_snapshot w).0 [
    | ok _ ↦ (ok (f (tables r w)), (call env select_snapshot w).1)
    | err _ ↦ (ok none, (call env select_snapshot w).1)
  ]

  abbrev pub start_balance : Option (SnapshotRow D) → D
  start_balance none = dec.zero
  start_balance (some s) = s.settled_balance

  abbrev pub start_count : Option (SnapshotRow D) → ℕ
  start_count none = 0
  start_count (some s) = s.entry_count

  abbrev pub start_time : Option (SnapshotRow D) → Option ℕ
  start_time none = none
  start_time (some s) = some s.snapshot_at

  -- computeSettledBalanceWithRunner. With a snapshot 16 characters are cut off the query. Where they
  -- are not those of FOR UPDATE OF e, a condition `AND t.sta` is left, a column that no table has.
  -- Whether the database locks the rows of a sum is its own matter: a refusal is a fault of the call.
  unfoldable pub compute_settled_balance : Runner → Uuid → String → Option ℕ → Bool → M D (D × ℕ)
  compute_settled_balance r account currency start locking = do
    wrap "failed to query settled balance" (call env (sum_settled locking (is_some start)))
    if not locking && is_some start
        then wrap "failed to query settled balance" (raise (driver (pg_error undefined_column)))
        else pure tt
    rows ← reads r (λ db. matching db account currency (settled_after start))
    pure (dec.sub (credits rows) (debits rows), count rows)

  -- computePendingAmountsWithRunner
  unfoldable pub compute_pending_amounts : Runner → Uuid → String → Bool → M D (D × D)
  compute_pending_amounts r account currency locking = do
    wrap "failed to query pending amounts" (call env (sum_pending locking))
    rows ← reads r (λ db. matching db account currency is_pending)
    pure (debits rows, credits rows)

  unfoldable pub balance_of : Uuid → String → D → ℕ → D × D → ℕ → Balance D
  balance_of account currency settled_balance entry_count pending_sums as_of = record {
    account_id = env.to_string account;
    currency = currency;
    settled_balance = settled_balance;
    pending_debits = pending_sums.0;
    pending_credits = pending_sums.1;
    available_balance = dec.sub (dec.add settled_balance pending_sums.1) pending_sums.0;
    entry_count = entry_count;
    as_of_timestamp = as_of;
  }

  -- getCurrentBalanceWithLocking
  unfoldable pub current_balance : Runner → Bool → Uuid → String → M D (Balance D)
  unfolding get_snapshot compute_settled_balance compute_pending_amounts balance_of
  current_balance r locking account currency = do
    snapshot ← get_snapshot r (λ db. latest_snapshot db account currency)
    delta ←
        wrap "failed to compute settled balance"
          (compute_settled_balance r account currency (start_time snapshot) locking)
    pending_sums ←
        wrap "failed to compute pending amounts"
          (compute_pending_amounts r account currency locking)
    time ← now env
    pure (
        balance_of account currency (dec.add (start_balance snapshot) delta.0)
          (start_count snapshot + delta.1) pending_sums time)

  unfoldable pub get_current_balance : Uuid → String → M D (Balance D)
  get_current_balance = current_balance pool false

  unfoldable pub get_current_balance_in_tx : Uuid → String → M D (Balance D)
  get_current_balance_in_tx = current_balance in_tx true

  -- computeHistoricalSettledBalance and computeHistoricalPendingAmounts
  unfoldable pub compute_historical_settled : Uuid → String → Option ℕ → ℕ → M D (D × ℕ)
  compute_historical_settled account currency start as_of = do
    wrap "failed to query historical settled balance" (call env (sum_settled false (is_some start)))
    rows ← reads pool (λ db. matching db account currency (settled_between start as_of))
    pure (dec.sub (credits rows) (debits rows), count rows)

  unfoldable pub compute_historical_pending : Uuid → String → ℕ → M D (D × D)
  compute_historical_pending account currency as_of = do
    wrap "failed to query historical pending amounts" (call env (sum_pending false))
    rows ← reads pool (λ db. matching db account currency (pending_until as_of))
    pure (debits rows, credits rows)

  unfoldable pub get_historical_balance : Uuid → String → ℕ → M D (Balance D)
  unfolding get_snapshot compute_historical_settled compute_historical_pending balance_of
  get_historical_balance account currency as_of = do
    snapshot ← get_snapshot pool (λ db. snapshot_before db account currency as_of)
    delta ←
        wrap "failed to compute historical settled balance"
          (compute_historical_settled account currency (start_time snapshot) as_of)
    pending_sums ←
        wrap "failed to compute historical pending amounts"
          (compute_historical_pending account currency as_of)
    pure (
        balance_of account currency (dec.add (start_balance snapshot) delta.0)
          (start_count snapshot + delta.1) pending_sums as_of)
