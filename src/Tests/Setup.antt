-- ===== src/Tests/Setup.antt =====
-- An environment, accounts, requests and tables for the concrete runs.
use double_entry_ledger_engi.Ledger.{new_row}
use double_entry_ledger_engi.Tests.Amounts.{Amount}
use double_entry_ledger_engi.Base.{
  String, Bool, none, some, ◌+◌, ◌∷◌, [], false, if◌then◌else◌, true, same, ◌==◌,
}
use double_entry_ledger_engi.Domain.{
  TransactionState, AccountType, EntryType, asset, settled, credit, liability, debit,
}
use double_entry_ledger_engi.Processor.{PostTransactionRequest, ReversalRequest, EntryRequest}
use double_entry_ledger_engi.Domain.Validator.{TransactionValidator, new_validator}
use double_entry_ledger_engi.Store.{
  Db, Env, KeyRow, Uuid, TransactionRow, AccountRow, CurrencyRow, EntryRow, World,
}
use std.Int.{pos}

-- Nothing fails; the clock and the UUIDs count the calls.
abbrev pub test_env : Env
test_env = record {
  fault = λ n c. none;
  now = λ n. n;
  new_uuid = λ n. 100 + n;
  is_done = λ n. false;
  parse = λ s.
      if same s "cash"
      then some 1
      else if same s "bank"
      then some 2
      else if same s "t7"
      then some 7
      else none;
  to_string =
      λ n. if n == 1 then "cash" else if n == 2 then "bank" else if n == 7 then "t7" else "";
}

abbrev pub test_validator : TransactionValidator
test_validator = new_validator ("USD" ∷ [])

-- A credit of 100 to cash and a debit of 100 from the bank.
abbrev pub entry_request : String → EntryType → EntryRequest Amount
entry_request account type = record {
  account_id = account;
  currency_code = "USD";
  amount = pos 100;
  entry_type = type;
  description = "";
}

abbrev pub pay_request : PostTransactionRequest Amount
pay_request = record {
  idempotency_key = some "k1";
  state = settled;
  entries = entry_request "cash" credit ∷ entry_request "bank" debit ∷ [];
  metadata = none;
}

abbrev pub reversal_req : ReversalRequest
reversal_req = record { idempotency_key = none; state = settled; description = ""; metadata = none }

abbrev pub test_account : Uuid → AccountType → AccountRow
test_account id type = record {
  account_id = id;
  account_type = type;
  created_at = 0;
  updated_at = 0;
  metadata = none;
}

abbrev pub test_currency : Uuid → Bool → CurrencyRow
test_currency id allow = record {
  account_id = id;
  currency_code = "USD";
  allow_negative = allow;
  created_at = 0;
}

-- Cash may not become negative, the bank may.
abbrev pub empty_db : Db Amount
empty_db = record {
  accounts = test_account 1 asset ∷ test_account 2 liability ∷ [];
  account_currencies = test_currency 1 false ∷ test_currency 2 true ∷ [];
  transactions = [];
  entries = [];
  idempotency_keys = [];
  balance_snapshots = [];
}

abbrev pub test_row : TransactionState → TransactionRow
test_row state = new_row 7 none state 3 none none none

abbrev pub test_entry : Uuid → Uuid → EntryType → EntryRow Amount
test_entry id account type = record {
  entry_id = id;
  transaction_id = 7;
  account_id = account;
  currency_code = "USD";
  amount = pos 100;
  entry_type = type;
  description = "";
  created_at = 3;
}

abbrev pub key_row : KeyRow
key_row = record { key = "k1"; transaction_id = 7; created_at = 3; expires_at = 1000 }

-- One transaction in a given state, with its key.
abbrev pub one_db : TransactionState → Db Amount
one_db state = record empty_db {
  transactions = test_row state ∷ [];
  entries = test_entry 8 1 credit ∷ test_entry 9 2 debit ∷ [];
  idempotency_keys = key_row ∷ [];
}

abbrev pub world_of : Db Amount → World Amount
world_of db = record { db = db; tx = db; tick = 10; events = [] }
