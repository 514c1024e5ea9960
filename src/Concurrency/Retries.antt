-- ===== src/Concurrency/Retries.antt =====
-- ExecuteWithRetry: which failures are retried, how often, and how long the loop waits.
use double_entry_ledger_engi.Base.{
  ℕ, ◌≤◌, Result, ◌+◌, ◌≡◌, err, suc, ◌>>◌, arith, ok, ◌*◌, Bool-cases, false, zero, inl, raise,
  inr, refl, ◌/◌, ◌^◌, ◌-◌, some,
}
use double_entry_ledger_engi.Concurrency.{
  calculate_backoff_delay, RetryConfig, default_retry_config, attempts, execute_with_retry, wait,
  after_attempt, is_retryable_error,
}
use double_entry_ledger_engi.Store.{Env, M, Error, World, run, wrapped}

module _ {D A : Type 0} (env : Env) (config : RetryConfig) (m : M D A) where
  -- The calls that one attempt makes, at most.
  abbrev pub IsBounded : ℕ → Type 0
  IsBounded k = (w : World D) → (m w).1.tick ≤ w.tick + k

  after-tick :
      (again : Error D → M D A) (p : Result (Error D) A × World D) (b : ℕ)
      → p.1.tick ≤ b
      → ((x : Error D) → (again x p.1).1.tick ≤ b)
      → (after_attempt env config m again p).1.tick ≤ b
  after-tick again (ok a, w) b h k = h
  after-tick again (err x, w) b h k =
      elim (Bool-cases (is_retryable_error config.retryable_errors x)) [
        | inl r ↦ rw r (k x)
        | inr r ↦ rw r h
      ]

  wait-tick :
      (left k : ℕ) (w : World D) (b : ℕ)
      → ((u : World D) → (attempts env config m left u).1.tick ≤ u.tick + b)
      → ((wait env >> attempts env config m left) w).1.tick ≤ suc w.tick + b
  unfolding wait run
  wait-tick left k w b h = ground (arith, h (record w { tick = suc w.tick }))

  attempts-tick :
      (k left : ℕ) (w : World D)
      → IsBounded k
      → (attempts env config m left w).1.tick ≤ w.tick + suc left * suc k
  unfolding attempts run
  attempts-tick k zero w h = after-tick _ (m w) _ (omega (arith, h w)) (λ x. omega (arith, h w))
  attempts-tick k (suc left) w h = after-tick _ (m w) _ (omega (arith, h w)) (λ x.
      omega
        (arith, h w, wait-tick left k (m w).1 (suc left * suc k) (λ u. attempts-tick k left u h)))

  -- When an attempt makes at most k calls to the outside, the whole loop, its waits counted as calls,
  -- makes at most (max_retries + 1) * (k + 1).
  pub execute_with_retry-IsBounded :
      (k : ℕ) (w : World D)
      → IsBounded k
      → (execute_with_retry env config m w).1.tick ≤ w.tick + suc config.max_retries * suc k
  unfolding execute_with_retry
  execute_with_retry-IsBounded k w h = attempts-tick k config.max_retries w h

  once :
      (left : ℕ) (w : World D)
      → ((e : Error D) → (m w).0 ≡ err e → is_retryable_error config.retryable_errors e ≡ false)
      → attempts env config m left w ≡ m w
  unfolding attempts
  once zero w h = go (m w) h
    where
      go :
          (p : Result (Error D) A × World D)
          → ((e : Error D) → p.0 ≡ err e → is_retryable_error config.retryable_errors e ≡ false)
          → after_attempt env config m (λ e. raise (wrapped "operation failed after retries" e)) p
            ≡ p
      go (ok a, u) h = refl
      go (err e, u) h = rw (h e refl) refl
  once (suc left) w h = go (m w) h (λ _. wait env >> attempts env config m left)
    where
      go :
          (p : Result (Error D) A × World D)
          → ((e : Error D) → p.0 ≡ err e → is_retryable_error config.retryable_errors e ≡ false)
          → (again : Error D → M D A) → after_attempt env config m again p ≡ p
      go (ok a, u) h again = refl
      go (err e, u) h again = rw (h e refl) refl

  -- An attempt that succeeds, or fails with an error that is not retryable, is the whole of the call.
  pub execute_with_retry-once :
      (w : World D)
      → ((e : Error D) → (m w).0 ≡ err e → is_retryable_error config.retryable_errors e ≡ false)
      → execute_with_retry env config m w ≡ m w
  unfolding execute_with_retry
  execute_with_retry-once w h = once config.max_retries w h

pub calculate_backoff_delay_doubles :
    (attempt random : ℕ)
    → 1 ≤ attempt
    → attempt ≤ 5
    → random ≤ 1000000
    → (delay : ℕ) × (calculate_backoff_delay default_retry_config attempt random ≡ some delay)
      × (10000000 * 2 ^ (attempt - 1) ≤ delay)
      × (10 * delay ≤ 11 * (10000000 * 2 ^ (attempt - 1)))
unfolding calculate_backoff_delay default_retry_config
calculate_backoff_delay_doubles zero random h k r = absurd (omega arith)
calculate_backoff_delay_doubles (suc zero) random h k r =
    (10000000 + 10000000 * 10 * random / 100000000, ground arith, omega arith, omega arith)
calculate_backoff_delay_doubles (suc (suc zero)) random h k r =
    (20000000 + 20000000 * 10 * random / 100000000, ground arith, omega arith, omega arith)
calculate_backoff_delay_doubles (suc (suc (suc zero))) random h k r =
    (40000000 + 40000000 * 10 * random / 100000000, ground arith, omega arith, omega arith)
calculate_backoff_delay_doubles (suc (suc (suc (suc zero)))) random h k r =
    (80000000 + 80000000 * 10 * random / 100000000, ground arith, omega arith, omega arith)
calculate_backoff_delay_doubles (suc (suc (suc (suc (suc zero))))) random h k r =
    (160000000 + 160000000 * 10 * random / 100000000, ground arith, omega arith, omega arith)
calculate_backoff_delay_doubles (suc (suc (suc (suc (suc (suc n)))))) random h k r =
    absurd (omega arith)
