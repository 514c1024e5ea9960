-- ===== src/Concurrency.antt =====
-- internal/service/transaction/concurrency_*.go: row locks in a fixed order, retries of serialization
-- failures, and the optimistic version test.
mod Sort
mod Texts
pub mod Locks
pub mod Locked
pub mod Retries
unfoldable pub use Sort.*
use double_entry_ledger_engi.Base.{
  ℕ, zero, suc, ⊤, ◌+◌, ◌-◌, ◌*◌, ◌/◌, ◌^◌, Bool, true, false, String, Option, none, some, List, [],
  ◌∷◌, Result, ok, err, ◌>>=◌, ◌>>◌, pure, raise, ◌==◌, ltb, leb, same, if◌then◌else◌, any,
  is_empty,
}
use double_entry_ledger_engi.Store.{
  Uuid, AccountRow, Db, World, Error, Env, M, in_tx, reads, call, now, begin, commit, wrap, driver,
  pg_error, wrapped, message, context_done, optimistic_lock, lock_account, select_version,
  validation, insufficient_balance, no_rows, other,
}
use double_entry_ledger_engi.Accounts.{is_account}
use double_entry_ledger_engi.Ledger.{invalid_text}

pub record RetryConfig : Type 0 where
  pub max_retries : ℕ
  -- nanoseconds
  pub base_delay : ℕ
  pub max_delay : ℕ
  -- hundredths
  pub jitter_factor : ℕ
  pub retryable_errors : List String

unfoldable pub default_retry_config : RetryConfig
default_retry_config = record {
  max_retries = 5;
  base_delay = 10000000;
  max_delay = 1000000000;
  jitter_factor = 10;
  retryable_errors = "40001" ∷ "40P01" ∷ [];
}

-- math.Pow(2, attempt - 1) times the base, truncated: a half of it for the attempt 0.
abbrev doubled_delay : ℕ → ℕ → ℕ
doubled_delay base zero = base / 2
doubled_delay base (suc n) = base * 2 ^ n

abbrev with_jitter : RetryConfig → ℕ → ℕ → ℕ
with_jitter config random delay =
    if ltb 0 config.jitter_factor
    then delay + delay * config.jitter_factor * random / 100000000
    else delay

abbrev in_duration : ℕ → Option ℕ
in_duration delay = if ltb delay (2 ^ 63) then some delay else none

-- `random` is rand.Float64() in millionths. The products of float64 are exact on the default
-- configuration; the conversion to a duration truncates. There is no answer where a duration would
-- leave int64: Go leaves that conversion open, and the sum wraps.
unfoldable pub calculate_backoff_delay : RetryConfig → ℕ → ℕ → Option ℕ
calculate_backoff_delay config attempt random =
    elim (in_duration (doubled_delay config.base_delay attempt)) [
      | none ↦ none
      | some delay ↦ in_duration (
          with_jitter config random
            (if ltb config.max_delay delay then config.max_delay else delay))
    ]

abbrev pub code_in : List String → Option String → Bool
code_in codes none = false
code_in codes (some code) = any (λ c. same code c) codes

module _ {D : Type 0} where
  -- errors.As(err, &pgErr): the first database error in the chain of wrapped errors.
  unfoldable pub as_pg_error : Error D → Option String
  as_pg_error (driver (pg_error code)) = some code
  as_pg_error (wrapped _ e) = as_pg_error e
  as_pg_error _ = none

  unfoldable pub is_retryable_error : List String → Error D → Bool
  unfolding as_pg_error
  is_retryable_error codes e = code_in codes (as_pg_error e)

  module _ (env : Env) where
    -- ctx.Done() against the timer: which of the two fires first is the environment's.
    unfoldable pub wait : M D ⊤
    wait w =
        (if env.is_done w.tick then err context_done else ok tt, record w { tick = suc w.tick })

    module _ {A : Type 0} (config : RetryConfig) (operation : M D A) where
      -- What follows an attempt: success, a failure that is returned at once, or `again`.
      abbrev pub after_attempt :
          (Error D → M D A) → Result (Error D) A × World D → Result (Error D) A × World D
      after_attempt again (ok a, w) = (ok a, w)
      after_attempt again (err e, w) =
          if is_retryable_error config.retryable_errors e then again e w else (err e, w)

      -- The loop, when `left` more attempts may follow this one.
      unfoldable pub attempts : ℕ → M D A
      attempts zero w =
          after_attempt (λ e. raise (wrapped "operation failed after retries" e)) (operation w)
      attempts (suc left) w = after_attempt (λ _. wait >> attempts left) (operation w)

      unfoldable pub execute_with_retry : M D A
      execute_with_retry = attempts config.max_retries

    module _ {A : Type 0} where
      -- SerializableTransaction; a transaction left open is rolled back.
      unfoldable pub serializable_transaction : M D A → M D A
      serializable_transaction fn = do
        wrap "failed to begin serializable transaction" (begin env)
        a ← fn
        wrap "failed to commit serializable transaction" (commit env)
        pure a

    abbrev pub locked : String → Bool → M D ⊤
    locked account true = pure tt
    locked account false = raise (message "account not found for locking" account)

    unfoldable pub lock_parsed : String → Option Uuid → M D ⊤
    lock_parsed account none =
        raise (wrapped "failed to acquire account lock" (driver (pg_error invalid_text)))
    lock_parsed account (some id) = do
      known ← reads in_tx (λ db. any (is_account id) db.accounts)
      locked account known

    -- SELECT ... FOR UPDATE; the database reads the text of the parameter as a UUID.
    unfoldable pub lock_account_for_update : String → M D ⊤
    unfolding lock_parsed
    lock_account_for_update account = do
      wrap "failed to acquire account lock" (call env lock_account)
      lock_parsed account (env.parse account)

    unfoldable pub lock_all : List String → M D ⊤
    lock_all [] = pure tt
    lock_all (account ∷ rest) = do lock_account_for_update account; lock_all rest

    unfoldable pub lock_multiple_accounts_for_update : List String → M D ⊤
    unfolding lock_all
    lock_multiple_accounts_for_update accounts =
        if is_empty accounts then pure tt else lock_all (unique_strings (sort_strings accounts))

    -- sameTimestamp truncates to microseconds, the unit of the model.
    abbrev pub compare_versions : ℕ → String → Option ℕ → M D ⊤
    compare_versions expected id none =
        raise (message "record not found for optimistic lock check" id)
    compare_versions expected id (some current) =
        if current == expected then pure tt else raise (optimistic_lock expected current)

    -- `updated_at` is the lookup of the column by the table and the id that the caller names.
    unfoldable pub check_optimistic_lock_version : (Db D → Option ℕ) → String → ℕ → M D ⊤
    check_optimistic_lock_version updated_at id expected = do
      wrap "failed to check optimistic lock version" (call env select_version)
      current ← reads in_tx updated_at
      compare_versions expected id current
