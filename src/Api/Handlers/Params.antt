-- ===== src/Api/Handlers/Params.antt =====
-- The query parameters that the list handlers read: a name is given with its values, in the order
-- in which a loop over the map meets the names.
use double_entry_ledger_engi.Query.{TransactionFilter}
use double_entry_ledger_engi.Accounts.Listing.{AccountFilter}
use double_entry_ledger_engi.Domain.{
  account_type_is_valid, state_is_valid, AccountType, TransactionState, asset, pending, liability,
  settled, cancelled, equity, revenue, expense,
}
use double_entry_ledger_engi.Base.{
  List, Option, Result, String, ℤ, Bool, [], if◌then◌else◌, ok, some, ◌∷◌, err, false, none, same,
  not, pos, ◌||◌, is_below_zero, leb, negsuc, true, is_positive, ◌&&◌,
}
use double_entry_ledger_engi.Api.Texts.{after_prefix, atoi}

abbrev pub Params : Type 0
Params = List (String × List String)

abbrev first_value_of : List String → String
first_value_of [] = ""
first_value_of (v ∷ vs) = v

-- c.Query(name)
unfoldable pub query_value : String → Params → String
query_value name [] = ""
query_value name ((key, values) ∷ params) =
    if same key name then first_value_of values else query_value name params

-- A refusal of a parameter: its error and its details.
abbrev pub Problem : Type 0
Problem = String × String

-- The checks of a handler, one after another.
infixl 5 ◌and_then◌
abbrev pub ◌and_then◌ :
    {A B : Type 0} → Result Problem A → (A → Result Problem B) → Result Problem B
ok a and_then f = f a
err p and_then f = err p

abbrev in_limit : Option ℤ → Bool
in_limit none = false
in_limit (some n) = is_positive n && at_most_1000 n
  where
    at_most_1000 : ℤ → Bool
    at_most_1000 (pos m) = leb m 1000
    at_most_1000 (negsuc m) = true

abbrev not_below_zero : Option ℤ → Bool
not_below_zero none = false
not_below_zero (some n) = not (is_below_zero n)

abbrev number_or : ℤ → Option ℤ → ℤ
number_or d none = d
number_or d (some n) = n

-- An empty text leaves the default.
unfoldable pub limit_param : String → Result Problem ℤ
unfolding atoi
limit_param text =
    if same text ""
    then ok (pos 100)
    else if in_limit (atoi text)
    then ok (number_or (pos 100) (atoi text))
    else err ("Invalid limit parameter", "Limit must be between 1 and 1000")

unfoldable pub offset_param : String → Result Problem ℤ
unfolding atoi
offset_param text =
    if same text ""
    then ok (pos 0)
    else if not_below_zero (atoi text)
    then ok (number_or (pos 0) (atoi text))
    else err ("Invalid offset parameter", "Offset must be non-negative")

abbrev pub state_of : String → TransactionState
state_of s =
    if same s "pending"
    then pending
    else if same s "settled"
    then settled
    else if same s "cancelled"
    then cancelled
    else TransactionState.unknown s

unfoldable pub state_param : String → Result Problem (Option TransactionState)
unfolding state_is_valid
state_param text =
    if same text ""
    then ok none
    else if state_is_valid (state_of text)
    then ok (some (state_of text))
    else err ("Invalid state parameter", "State must be one of: pending, settled, cancelled")

abbrev pub account_type_of : String → AccountType
account_type_of s =
    if same s "asset"
    then asset
    else if same s "liability"
    then liability
    else if same s "equity"
    then equity
    else if same s "revenue"
    then revenue
    else if same s "expense"
    then expense
    else AccountType.unknown s

unfoldable pub account_type_param : String → Result Problem (Option AccountType)
unfolding account_type_is_valid
account_type_param text =
    if same text ""
    then ok none
    else if account_type_is_valid (account_type_of text)
    then ok (some (account_type_of text))
    else err (
      "Invalid account_type parameter",
      "Account type must be one of: asset, liability, equity, revenue, expense",
    )

unfoldable pub order_param : String → Result Problem String
order_param text =
    if same text "" || same text "timestamp_asc" || same text "timestamp_desc"
    then ok text
    else err ("Invalid order_by parameter", "Order by must be 'timestamp_asc' or 'timestamp_desc'")

abbrev pub given_text : String → Option String
given_text s = if same s "" then none else some s

abbrev add_filter : Option String → List String → List (String × String) → List (String × String)
add_filter none values rest = rest
add_filter (some key) [] rest = rest
add_filter (some key) (v ∷ vs) rest = if same key "" then rest else (key, v) ∷ rest

-- The parameters named "metadata." and a key that is not empty.
unfoldable pub metadata_filters : Params → List (String × String)
unfolding after_prefix
metadata_filters [] = []
metadata_filters ((name, values) ∷ params) =
    add_filter (after_prefix "metadata." name) values (metadata_filters params)

-- The filter of ListTransactions.
unfoldable pub transaction_filter : Params → Result Problem TransactionFilter
unfolding query_value state_param limit_param offset_param order_param metadata_filters
transaction_filter params = state_param (query_value "state" params) and_then λ state.
    limit_param (query_value "limit" params) and_then λ limit.
    offset_param (query_value "offset" params) and_then λ offset.
    order_param (query_value "order_by" params) and_then λ order_by. ok (record {
      account_id = given_text (query_value "account_id" params);
      currency = given_text (query_value "currency" params);
      state = state;
      start_date = none;
      end_date = none;
      metadata = metadata_filters params;
      limit = limit;
      offset = offset;
      order_by = order_by;
    })

-- The filter of ListAccounts.
unfoldable pub account_filter : Params → Result Problem AccountFilter
unfolding query_value account_type_param limit_param offset_param
account_filter params =
    account_type_param (query_value "account_type" params) and_then λ account_type.
    limit_param (query_value "limit" params) and_then λ limit.
    offset_param (query_value "offset" params) and_then λ offset. ok (record {
      account_type = account_type;
      currency_code = given_text (query_value "currency_code" params);
      limit = limit;
      offset = offset;
    })
