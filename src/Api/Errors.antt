-- ===== src/Api/Errors.antt =====
-- internal/api/errors/errors.go: the codes of the API, their statuses, and the conversion of errors.
-- What `Error()` answers is formatted by fmt, and an amount is printed by the decimal package: both
-- are the interface `Rendering`.
pub mod Statuses
use double_entry_ledger_engi.Domain.Errors.{ValidationError}
use double_entry_ledger_engi.Store.{Error, validation}
use double_entry_ledger_engi.Api.Texts.{
  fields, lower_contains, trim_marks, join, has_dash, is_upper,
}
use double_entry_ledger_engi.Base.{
  List, String, ℕ, Bool, [], if◌then◌else◌, ◌∷◌, ltb, same, ◌&&◌, ◌||◌, len, ◌==◌,
}

pub data ErrorCode : Type 0 where
  invalid_request missing_field invalid_currency negative_amount : ErrorCode
  precision_exceeded unbalanced_transaction invalid_state invalid_format : ErrorCode
  insufficient_balance negative_balance_policy account_not_found : ErrorCode
  transaction_not_found invalid_reversal unsupported_currency : ErrorCode
  idempotency_conflict duplicate_key : ErrorCode
  unauthorized forbidden invalid_credentials : ErrorCode
  database_error event_emission_error internal_error service_unavailable : ErrorCode
  unknown : String → ErrorCode

-- The details are a map from keys to texts.
pub record ApiError : Type 0 where
  pub code : ErrorCode
  pub message : String
  pub details : List (String × String)
  pub request_id : String

unfoldable pub new_api_error : ErrorCode → String → ApiError
new_api_error code message = record {
  code = code;
  message = message;
  details = [];
  request_id = "";
}

unfoldable pub with_details : List (String × String) → ApiError → ApiError
with_details details e = record e { details = details }

unfoldable pub with_request_id : String → ApiError → ApiError
with_request_id id e = record e { request_id = id }

unfoldable pub get_http_status_code : ErrorCode → ℕ
get_http_status_code invalid_request = 400
get_http_status_code missing_field = 400
get_http_status_code invalid_currency = 400
get_http_status_code negative_amount = 400
get_http_status_code precision_exceeded = 400
get_http_status_code unbalanced_transaction = 400
get_http_status_code invalid_state = 400
get_http_status_code invalid_format = 400
get_http_status_code unauthorized = 401
get_http_status_code invalid_credentials = 401
get_http_status_code forbidden = 403
get_http_status_code account_not_found = 404
get_http_status_code transaction_not_found = 404
get_http_status_code idempotency_conflict = 409
get_http_status_code duplicate_key = 409
get_http_status_code insufficient_balance = 422
get_http_status_code negative_balance_policy = 422
get_http_status_code invalid_reversal = 422
get_http_status_code unsupported_currency = 422
get_http_status_code _ = 500

-- The constructors of errors.
unfoldable pub validation_error : String → ApiError
unfolding new_api_error
validation_error message = new_api_error invalid_request message

unfoldable pub insufficient_balance_error : String → String → String → String → ApiError
unfolding new_api_error with_details
insufficient_balance_error account currency required available =
    with_details
      (("account_id", account)
        ∷ ("currency", currency)
        ∷ ("required_amount", required)
        ∷ ("available_balance", available)
        ∷ [])
      (new_api_error insufficient_balance
        (join "Account " (join account (join " has insufficient balance in " currency))))

unfoldable pub account_not_found_error : String → ApiError
unfolding new_api_error with_details
account_not_found_error account =
    with_details (("account_id", account) ∷ [])
      (new_api_error account_not_found (join "Account not found: " account))

unfoldable pub transaction_not_found_error : String → ApiError
unfolding new_api_error with_details
transaction_not_found_error id =
    with_details (("transaction_id", id) ∷ [])
      (new_api_error transaction_not_found (join "Transaction not found: " id))

unfoldable pub invalid_currency_error : String → ApiError
unfolding new_api_error with_details
invalid_currency_error currency =
    with_details (("currency", currency) ∷ [])
      (new_api_error invalid_currency (join "Invalid or unsupported currency: " currency))

unfoldable pub idempotency_conflict_error : String → ApiError
unfolding new_api_error with_details
idempotency_conflict_error key =
    with_details (("idempotency_key", key) ∷ [])
      (new_api_error idempotency_conflict (join "Idempotency key conflict: " key))

unfoldable pub database_error_of : String → ApiError
unfolding new_api_error
database_error_of message =
    new_api_error database_error (join "Database operation failed: " message)

unfoldable pub internal_error_of : String → ApiError
unfolding new_api_error
internal_error_of message = new_api_error internal_error (join "Internal server error: " message)

-- extractValueFromMessage: a word of more than 8 bytes with a dash or of 36 bytes, or one of 3 bytes
-- without lower-case letters
abbrev is_value : String → Bool
is_value word =
    (ltb 8 (len word) && (has_dash word || len word == 36)) || (len word == 3 && is_upper word)

unfoldable pub first_value : List String → String
unfolding trim_marks
first_value [] = ""
first_value (word ∷ words) =
    let rest = first_value words in if is_value (trim_marks word) then trim_marks word else rest

unfoldable pub extract_value_from_message : String → String
unfolding first_value fields
extract_value_from_message message = first_value (fields message)

-- The value of the message, or "unknown".
unfoldable pub extract_or_unknown : String → String
unfolding extract_value_from_message
extract_or_unknown message =
    let value = extract_value_from_message message in if same value "" then "unknown" else value

pub record Rendering (D : Type 0) : Type 0 where
  pub error_text : Error D → String
  pub field : ValidationError D → String
  pub message : ValidationError D → String
  pub amount : D → String

-- The tests of convertValidationError on the message, in their order.
unfoldable pub convert_validation_text : String → String → ApiError
unfolding invalid_currency_error validation_error new_api_error with_details lower_contains
    extract_value_from_message
convert_validation_text field message =
    let has = lower_contains message in
    let plain =
      λ (code : ErrorCode). with_details (("field", field) ∷ []) (new_api_error code message) in
    if has "currency" && (has "invalid" || has "unsupported")
    then invalid_currency_error (extract_value_from_message message)
    else if has "amount" && has "negative"
    then plain negative_amount
    else if has "precision" || has "decimal places"
    then plain precision_exceeded
    else if has "balanced" || (has "debits" && has "credits")
    then new_api_error unbalanced_transaction message
    else if has "required" || has "missing"
    then plain missing_field
    else if has "state" && has "invalid"
    then plain invalid_state
    else plain invalid_request

-- The tests of ConvertToAPIError on the text of an error that is of no known type.
unfoldable pub convert_text : String → ApiError
unfolding account_not_found_error transaction_not_found_error invalid_currency_error new_api_error
    validation_error database_error_of idempotency_conflict_error internal_error_of lower_contains
    extract_or_unknown
convert_text text =
    let has = lower_contains text in
    if has "account not found" || (has "account" && has "not found")
    then account_not_found_error (extract_or_unknown text)
    else if has "transaction not found" || (has "transaction" && has "not found")
    then transaction_not_found_error (extract_or_unknown text)
    else if has "currency" && (has "invalid" || has "unsupported")
    then invalid_currency_error (extract_or_unknown text)
    else if has "insufficient balance"
    then new_api_error insufficient_balance text
    else if has "not balanced" || (has "debits" && has "credits")
    then new_api_error unbalanced_transaction text
    else if has "validation failed" || has "invalid"
    then validation_error text
    else if has "database" || has "connection" || has "sql"
    then database_error_of "Database operation failed"
    else if has "event" && (has "failed" || has "emit")
    then new_api_error event_emission_error "Event emission failed"
    else if has "idempotency" && (has "conflict" || has "exists")
    then idempotency_conflict_error (extract_or_unknown text)
    else internal_error_of text

module _ {D : Type 0} (r : Rendering D) where
  unfoldable pub convert_validation_error : ValidationError D → ApiError
  unfolding convert_validation_text
  convert_validation_error e = convert_validation_text (r.field e) (r.message e)

  -- The type tests see only the outermost error: what is wrapped goes by its text.
  unfoldable pub convert_to_api_error : Error D → ApiError
  unfolding convert_validation_error insufficient_balance_error convert_text
  convert_to_api_error (validation e) = convert_validation_error e
  convert_to_api_error (Error.insufficient_balance account currency required available) =
      insufficient_balance_error account currency (r.amount required) (r.amount available)
  convert_to_api_error e = convert_text (r.error_text e)
