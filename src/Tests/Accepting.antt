-- ===== src/Tests/Accepting.antt =====
-- A posting that succeeds because nothing fails.
use double_entry_ledger_engi.Store.Success.{Succeeds}
use double_entry_ledger_engi.Domain.Validator.{new_validator}
use double_entry_ledger_engi.Domain.Currency.{is_valid}
use double_entry_ledger_engi.Processor.Impacts.{
  account_ids, insert_id, balance_impacts, impacts_from, add_impact,
}
use double_entry_ledger_engi.Concurrency.{
  lock_multiple_accounts_for_update, lock_all, lock_account_for_update, lock_parsed, sort_strings,
  insert_text, unique_strings, unique_after,
}
use double_entry_ledger_engi.Accounts.{get_account}
use double_entry_ledger_engi.Processor.Validate.{
  validate_accounts_and_balances_with_locking, validate_accounts_for_post, check_accounts,
  check_parsed, find_account, check_impacts, check_policy, check_balance,
}
use double_entry_ledger_engi.Base.{refl, ℕ, List, ◌≡◌, some, inr, inl}
use mathlib.Core.List.{Memᴰ}
use std.Int.{◌+ℤ◌}
use double_entry_ledger_engi.Tests.Setup.{pay_request, world_of, empty_db, test_env, test_validator}
use double_entry_ledger_engi.Tests.Amounts.{Amount, amount_laws, amount_decimal}
use double_entry_ledger_engi.Processor.Accepts.{post_transaction-Succeeds, looked_up}
use double_entry_ledger_engi.Processor.Succeeds.{IsReady}
use double_entry_ledger_engi.Processor.Rows.{AreRowsOf}
use double_entry_ledger_engi.Processor.Retried.{ledger}
use double_entry_ledger_engi.Processor.Post.{post_transaction}
use double_entry_ledger_engi.Processor.Posted.{add_posting, row_of_request}
use double_entry_ledger_engi.Processor.{entry_requests_to_ledger_inputs, request_to_transaction}
use double_entry_ledger_engi.Domain.Validator.Complete.{IsPostable}
use double_entry_ledger_engi.Store.{World, run, Uuid, EntryRow}

abbrev start : World Amount
start = world_of empty_db

is_ready : IsReady test_env pay_request (looked_up (some "k1") start)
unfolding validate_accounts_and_balances_with_locking validate_accounts_for_post check_accounts
    check_parsed find_account get_account check_impacts check_policy check_balance
    lock_multiple_accounts_for_update lock_all lock_account_for_update lock_parsed sort_strings
    insert_text unique_strings unique_after account_ids insert_id balance_impacts impacts_from
    add_impact run ◌+ℤ◌
is_ready = record {
  checked = (tt, refl);
  insertable = ((1, refl, refl, refl), ((2, refl, refl, refl), tt));
  free = refl;
}

is_postable : IsPostable amount_laws test_validator (request_to_transaction pay_request)
unfolding is_valid ◌+ℤ◌ new_validator
is_postable = record {
  has_entries = λ q. absurd (cc q);
  known_state = inr (inl refl);
  valid_entries = (
    record {
      has_account = λ q. absurd (cc q);
      code_format = refl;
      supported = Memᴰ.head refl;
      typed = inr refl;
      amount_nonneg = refl;
      precise = tt;
    },
    (
      record {
        has_account = λ q. absurd (cc q);
        code_format = refl;
        supported = Memᴰ.head refl;
        typed = inl refl;
        amount_nonneg = refl;
        precise = tt;
      },
      tt,
    ),
  );
  balanced = refl;
  bounded = tt;
}

post_transaction-Succeeds_example :
    Succeeds (post_transaction test_env test_validator 500 pay_request) start
    × ((id : Uuid) × (posted_at : ℕ) × (rows : List (EntryRow Amount)) × (ledger
            (post_transaction test_env test_validator 500 pay_request start).1.db
          ≡ ledger (add_posting empty_db (row_of_request pay_request id posted_at) rows))
        × AreRowsOf test_env id (entry_requests_to_ledger_inputs pay_request.entries) rows)
post_transaction-Succeeds_example =
    post_transaction-Succeeds amount_laws test_env test_validator 500 pay_request start
      (λ n c. refl) refl is_postable is_ready
