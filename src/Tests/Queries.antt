-- ===== src/Tests/Queries.antt =====
-- The theorems on lists of transactions at concrete tables, with UUIDs that are written in zeros.
use double_entry_ledger_engi.Query.Paged.{
  IsListing, IsPageLimit, IsPageOffset, list_transactions-IsListing,
}
use double_entry_ledger_engi.Base.{
  String, some, suc, ℕ, ◌∷◌, ◌≡◌, [], none, ok, false, map, pos, zero, refl, negsuc, All, window,
  length, List, ltb, ◌+◌,
}
use double_entry_ledger_engi.Tests.Setup.{test_env, world_of, one_db, test_row}
use double_entry_ledger_engi.Tests.Amounts.{Amount, amount_decimal}
use double_entry_ledger_engi.Store.{Env, Db, run, TransactionRow}
use double_entry_ledger_engi.Domain.{settled, pending}
use double_entry_ledger_engi.Ledger.{new_row}
use double_entry_ledger_engi.Query.{
  TransactionFilter, StatementFilter, TransactionPage, Statement, list_transactions,
  get_account_statement, is_ascending, page_limit, read_page, statement_page, page_offset,
  scan_rows, fetch_entries_by_transaction_ids, selects, states, ordered, insert_ordered,
}
use double_entry_ledger_engi.Query.Pages.{ReadsBack, full}
use double_entry_ledger_engi.Query.Filtered.{list_transactions-Meets}
use double_entry_ledger_engi.Query.Meets.{InOrder, Meets}

zeros : ℕ → String
zeros zero = ""
zeros (suc n) = String.◌∷◌ "0" (zeros n)

count_chars : String → ℕ
count_chars String.[] = 0
count_chars (String.◌∷◌ c s) = suc (count_chars s)

abbrev zeros_env : Env
unfolding zeros count_chars
zeros_env = record test_env { parse = λ s. some (count_chars s); to_string = zeros }

zeros_env-ReadsBack : ReadsBack zeros_env
unfolding zeros count_chars
zeros_env-ReadsBack zero = refl
zeros_env-ReadsBack (suc n) = let h = zeros_env-ReadsBack n in cc

-- A settled transaction of the time 3 with two entries, and a pending one of the time 5 without.
abbrev two_rows : Db Amount
two_rows = record (one_db settled) {
  transactions = test_row settled ∷ new_row 8 none pending 5 none none none ∷ [];
}

abbrev settled_filter : TransactionFilter
settled_filter = record {
  account_id = some "0";
  currency = some "USD";
  state = some settled;
  start_date = some 2;
  end_date = some 5;
  metadata = [];
  limit = pos 1;
  offset = pos 0;
  order_by = "";
}

abbrev settled_page : TransactionPage Amount
settled_page = record {
  transactions = full zeros_env two_rows (test_row settled) ∷ [];
  total_count = 1;
  limit = 1;
  offset = 0;
  has_more = false;
}

settled_page-answer :
    (list_transactions zeros_env settled_filter (world_of two_rows)).0 ≡ ok settled_page
unfolding list_transactions run read_page scan_rows fetch_entries_by_transaction_ids selects ordered
    insert_ordered page_limit page_offset is_ascending zeros count_chars
settled_page-answer = refl

list_transactions-IsListing_example :
    (rows : List TransactionRow) × (limit : ℕ) × (offset : ℕ) × IsListing zeros_env settled_filter
      two_rows rows
    × IsPageLimit settled_filter.limit limit
    × IsPageOffset settled_filter.offset offset
    × (settled_page.transactions ≡ map (full zeros_env two_rows) (window offset limit rows))
    × (1 ≡ length rows)
    × (false ≡ ltb (offset + limit) (length rows))
list_transactions-IsListing_example =
    list_transactions-IsListing zeros_env settled_filter (world_of two_rows) settled_page
      zeros_env-ReadsBack settled_page-answer

list_transactions-Meets_example :
    InOrder false settled_page.transactions
    × All (Meets zeros_env settled_filter) settled_page.transactions
unfolding is_ascending
list_transactions-Meets_example =
    list_transactions-Meets zeros_env settled_filter (world_of two_rows) settled_page
      zeros_env-ReadsBack settled_page-answer

abbrev statement_filter : StatementFilter
statement_filter = record {
  currency = none;
  start_date = none;
  end_date = none;
  limit = pos 0;
  offset = negsuc 0;
}

abbrev test_statement : Statement Amount
test_statement = record {
  account_id = "00";
  currency = none;
  transactions = full zeros_env two_rows (test_row settled) ∷ [];
  total_count = 1;
  limit = 100;
  offset = 0;
  has_more = false;
}

test_statement-answer :
    (get_account_statement zeros_env "00" statement_filter (world_of two_rows)).0
    ≡ ok test_statement
unfolding get_account_statement statement_page run read_page scan_rows
    fetch_entries_by_transaction_ids states ordered insert_ordered page_limit page_offset zeros
    count_chars
test_statement-answer = refl
