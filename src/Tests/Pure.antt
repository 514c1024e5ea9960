-- ===== src/Tests/Pure.antt =====
-- The theorems on the pure parts at concrete values.
use double_entry_ledger_engi.Domain.Validator.Complete.{IsPostable, validate_transaction_iff}
use double_entry_ledger_engi.Processor.Negation.{
  HasSide, of_key, reversal_of, create_reversal_entries-negate, reversal-balance,
}
use double_entry_ledger_engi.Processor.Impacts.{balance_impacts}
use double_entry_ledger_engi.Tests.Setup.{test_env, test_validator, pay_request, world_of, empty_db}
use double_entry_ledger_engi.Concurrency.Retries.{
  IsBounded, calculate_backoff_delay_doubles, execute_with_retry-IsBounded,
  calculate_backoff_delay_doubles,
}
use double_entry_ledger_engi.Concurrency.Locks.{IsIncreasing, unique_strings-IsIncreasing}
use double_entry_ledger_engi.Processor.{request_to_transaction, entry_of_request}
use double_entry_ledger_engi.Domain.{entry_type_is_valid, Entry}
use double_entry_ledger_engi.Store.{M, call, Error, select_account}
use double_entry_ledger_engi.Domain.Validator.Balanced.{
  signed_sum, validate_double_entry_balance_iff,
}
use double_entry_ledger_engi.Domain.Validator.{validate_double_entry_balance, validate_transaction}
use double_entry_ledger_engi.Processor.Net.{impact_at, balance_impacts-net}
use double_entry_ledger_engi.Concurrency.{
  calculate_backoff_delay, execute_with_retry, default_retry_config, unique_strings, sort_strings,
  is_retryable_error,
}
use double_entry_ledger_engi.Base.{
  List, All, ◌≡◌, arith, map, none, ⊤, ◌≤◌, ◌↔◌, ◌∷◌, [], err, refl, ◌+◌, suc, false, ◌*◌, ℕ, some,
}
use std.Int.{pos, negsuc, ◌+ℤ◌}
use double_entry_ledger_engi.Tests.Amounts.{amount_decimal, Amount, amount_laws}

abbrev two_entries : List (Entry Amount)
two_entries = map entry_of_request pay_request.entries

validate_transaction_iff_example :
    (validate_transaction test_validator (request_to_transaction pay_request) ≡ none)
    ↔ IsPostable amount_laws test_validator (request_to_transaction pay_request)
validate_transaction_iff_example =
    validate_transaction_iff amount_laws test_validator (request_to_transaction pay_request)

sides : All HasSide two_entries
unfolding entry_type_is_valid
sides = (refl, (refl, tt))

create_reversal_entries-negate_example :
    signed_sum amount_laws (of_key "cash" "USD" (reversal_of two_entries "")) ≡ negsuc 99
unfolding ◌+ℤ◌
create_reversal_entries-negate_example =
    create_reversal_entries-negate amount_laws two_entries "" "cash" "USD" sides

reversal-balance_example : validate_double_entry_balance (reversal_of two_entries "") ≡ none
unfolding ◌+ℤ◌
reversal-balance_example =
    reversal-balance amount_laws two_entries "" sides
      ((validate_double_entry_balance_iff amount_laws two_entries).1 refl)

balance_impacts-net_example :
    impact_at amount_laws "cash" "USD" (balance_impacts pay_request.entries) ≡ pos 100
unfolding ◌+ℤ◌
balance_impacts-net_example = balance_impacts-net amount_laws "cash" "USD" pay_request.entries

unique_strings-IsIncreasing_example :
    IsIncreasing (unique_strings (sort_strings ("cash" ∷ "bank" ∷ "cash" ∷ [])))
unique_strings-IsIncreasing_example = unique_strings-IsIncreasing ("cash" ∷ "bank" ∷ "cash" ∷ [])

-- An operation that makes one call.
abbrev one_call : M Amount ⊤
one_call = call test_env select_account

one_call-IsBounded : IsBounded test_env default_retry_config one_call 1
unfolding call
one_call-IsBounded w = ground arith

execute_with_retry-IsBounded_example :
    (execute_with_retry test_env default_retry_config one_call (world_of empty_db)).1.tick
    ≤ 10 + suc default_retry_config.max_retries * 2
execute_with_retry-IsBounded_example =
    execute_with_retry-IsBounded test_env default_retry_config one_call 1 (world_of empty_db)
      one_call-IsBounded

one_call-fine :
    (e : Error Amount)
    → (one_call (world_of empty_db)).0 ≡ err e
    → is_retryable_error default_retry_config.retryable_errors e ≡ false
unfolding call
one_call-fine e h = absurd cc

calculate_backoff_delay_doubles_example :
    (delay : ℕ) × (calculate_backoff_delay default_retry_config 3 999999 ≡ some delay)
    × (40000000 ≤ delay)
    × (10 * delay ≤ 440000000)
calculate_backoff_delay_doubles_example =
    calculate_backoff_delay_doubles 3 999999 (omega arith) (omega arith) (omega arith)
