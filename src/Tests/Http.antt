-- ===== src/Tests/Http.antt =====
-- The theorems on the HTTP API at concrete errors, requests and tables.
use double_entry_ledger_engi.Processor.Reverse.{reverse_transaction}
use double_entry_ledger_engi.Processor.Cancel.{cancel_pending_transaction}
use double_entry_ledger_engi.Processor.Settle.{settle_pending_transaction}
use double_entry_ledger_engi.Processor.Batch.{post_batch}
use double_entry_ledger_engi.Processor.Post.{post_transaction}
use double_entry_ledger_engi.Api.Handlers.Answers.{IsServed, IsRefused}
use double_entry_ledger_engi.Tests.Setup.{world_of, one_db, test_env, test_validator}
use double_entry_ledger_engi.Api.Response.{Library}
use double_entry_ledger_engi.Processor.{PostTransactionRequest, ReversalRequest}
use double_entry_ledger_engi.Domain.{settled, pending}
use double_entry_ledger_engi.Base.{
  String, none, ◌∷◌, ◌≡◌, [], some, ◌⊎◌, Result, List, if◌then◌else◌, ok, err, same,
}
use std.Int.{pos}
use double_entry_ledger_engi.Api.Handlers.Transactions.{
  TransactionBody, EntryBody, convert_to_service_request, post_transaction_handler, convert_batch,
  all_created, post_batch_transactions_handler, settle_transaction_handler,
  cancel_transaction_handler, reverse_transaction_handler,
}
use double_entry_ledger_engi.Api.Handlers.Transactions.Answers.{writing_handlers-answer, shows}
use double_entry_ledger_engi.Tests.Amounts.{Amount, amount_decimal}
use double_entry_ledger_engi.Store.{Error, wrapped, message, World}
use double_entry_ledger_engi.Api.Errors.{Rendering, convert_to_api_error, get_http_status_code}
use double_entry_ledger_engi.Api.Errors.Statuses.{Promises, convert_to_api_error-Promises}

abbrev text_of : Error Amount → String
text_of (message t s) = t
text_of (wrapped t e) = t
text_of e = "no rows in result set"

abbrev rendering : Rendering Amount
rendering = record {
  error_text = text_of;
  field = λ e. "entries";
  message = λ e. "no entries";
  amount = λ a. "1.00";
}

abbrev missing : Error Amount
missing = message "account not found" "a1"

convert_to_api_error-Promises_example :
    Promises rendering missing (get_http_status_code (convert_to_api_error rendering missing).code)
convert_to_api_error-Promises_example = convert_to_api_error-Promises rendering missing

abbrev library : Library Amount
library = record {
  new_from_string = λ s. if same s "1.00" then ok (pos 100) else err "can't convert to decimal";
  uuid_error = λ s. "invalid UUID length";
  number_text = λ n. "0";
  parse_time = λ s. none;
}

abbrev entry_body : String → String → EntryBody
entry_body account type = record {
  account_id = account;
  currency_code = "USD";
  amount = "1.00";
  entry_type = type;
  description = "";
}

abbrev pay_body : TransactionBody
pay_body = record {
  idempotency_key = some "k2";
  state = settled;
  entries = entry_body "cash" "credit" ∷ entry_body "bank" "debit" ∷ [];
  metadata = none;
}

abbrev pending_world : World Amount
pending_world = world_of (one_db pending)

abbrev bound_body : Result String TransactionBody
bound_body = ok pay_body

abbrev bound_bodies : Result String (List TransactionBody)
bound_bodies = ok (pay_body ∷ [])

abbrev bound_reversal : Result String ReversalRequest
bound_reversal = err "EOF"

writing_handlers-answer_example :
    (((req : TransactionBody) × (post : PostTransactionRequest Amount) × (bound_body ≡ ok req)
        × (convert_to_service_request library req ≡ ok post)
        × IsServed
            (post_transaction test_env test_validator 500 post)
            (shows library test_env test_validator 500 rendering none 201)
            pending_world
            (post_transaction_handler library test_env test_validator 500 rendering none bound_body
              pending_world))
      ⊎ IsRefused pending_world (
          post_transaction_handler library test_env test_validator 500 rendering none bound_body
            pending_world))
    × (((reqs : List TransactionBody) × (posts : List (PostTransactionRequest Amount))
          × (bound_bodies ≡ ok reqs)
          × (convert_batch library 0 reqs ≡ ok posts)
          × IsServed
              (post_batch test_env test_validator 500 posts)
              (all_created library test_env test_validator 500 rendering none)
              pending_world
              (post_batch_transactions_handler library test_env test_validator 500 rendering none
                bound_bodies pending_world))
        ⊎ IsRefused pending_world (
            post_batch_transactions_handler library test_env test_validator 500 rendering none
              bound_bodies pending_world))
    × (IsServed
          (settle_pending_transaction test_env "t7")
          (shows library test_env test_validator 500 rendering none 200)
          pending_world
          (settle_transaction_handler library test_env test_validator 500 rendering none "t7"
            pending_world)
        ⊎ IsRefused pending_world (
            settle_transaction_handler library test_env test_validator 500 rendering none "t7"
              pending_world))
    × (IsServed
          (cancel_pending_transaction test_env "t7")
          (shows library test_env test_validator 500 rendering none 200)
          pending_world
          (cancel_transaction_handler library test_env test_validator 500 rendering none "t7"
            pending_world)
        ⊎ IsRefused pending_world (
            cancel_transaction_handler library test_env test_validator 500 rendering none "t7"
              pending_world))
    × (((req : ReversalRequest) × (bound_reversal ≡ ok req)
          × IsServed
              (reverse_transaction test_env test_validator 500 "t7" req)
              (shows library test_env test_validator 500 rendering none 201)
              pending_world
              (reverse_transaction_handler library test_env test_validator 500 rendering none "t7"
                bound_reversal pending_world))
        ⊎ IsRefused pending_world (
            reverse_transaction_handler library test_env test_validator 500 rendering none "t7"
              bound_reversal pending_world))
writing_handlers-answer_example =
    writing_handlers-answer library test_env test_validator 500 rendering none bound_body
      bound_bodies "t7" bound_reversal pending_world
