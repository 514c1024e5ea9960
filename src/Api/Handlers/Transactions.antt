-- ===== src/Api/Handlers/Transactions.antt =====
-- internal/api/handlers/transaction_handler.go
pub mod Answers
use double_entry_ledger_engi.Processor.Cancel.{cancel_pending_transaction}
use double_entry_ledger_engi.Processor.Settle.{settle_pending_transaction}
use double_entry_ledger_engi.Processor.Reverse.{reverse_transaction}
use double_entry_ledger_engi.Processor.Post.{post_transaction}
use double_entry_ledger_engi.Processor.Batch.{post_batch}
use double_entry_ledger_engi.Query.{TransactionFilter, get_transaction, list_transactions}
use double_entry_ledger_engi.Api.Handlers.Params.{Problem, transaction_filter, Params}
use double_entry_ledger_engi.Api.Texts.{join}
use double_entry_ledger_engi.Api.Errors.{Rendering}
use double_entry_ledger_engi.Processor.{EntryRequest, PostTransactionRequest, ReversalRequest}
use double_entry_ledger_engi.Domain.Validator.{TransactionValidator}
use double_entry_ledger_engi.Store.{Env}
use double_entry_ledger_engi.Api.Response.{
  Library, Handler, Response, respond, bad_request, refuse, transaction, transactions, reply,
  handle_error, page, problem,
}
use double_entry_ledger_engi.Domain.{
  EntryType, TransactionState, Metadata, debit, Transaction, credit, entry_type_is_valid,
}
use double_entry_ledger_engi.Decimal.{Decimal}
use double_entry_ledger_engi.Base.{
  Option, String, List, Result, if◌then◌else◌, ℕ, same, err, ok, ◌∷◌, [], suc, length, none, some,
}

-- The request bodies; amounts and entry types are still texts.
pub record EntryBody : Type 0 where
  pub account_id : String
  pub currency_code : String
  pub amount : String
  pub entry_type : String
  pub description : String

pub record TransactionBody : Type 0 where
  pub idempotency_key : Option String
  pub state : TransactionState
  pub entries : List EntryBody
  pub metadata : Metadata

abbrev pub entry_type_of : String → EntryType
entry_type_of s =
    if same s "debit" then debit else if same s "credit" then credit else EntryType.unknown s

module _ {D : Type 0} ⦃dec : Decimal D⦄ (lib : Library D) where
  abbrev pub checked_amount : EntryBody → Result String D → Result String (EntryRequest D)
  checked_amount e (err text) = err text
  checked_amount e (ok amount) =
      if dec.is_negative amount
      then err "amount must be non-negative"
      else if entry_type_is_valid (entry_type_of e.entry_type)
      then ok (record {
        account_id = e.account_id;
        currency_code = e.currency_code;
        amount = amount;
        entry_type = entry_type_of e.entry_type;
        description = e.description;
      })
      else err (join "invalid entry type: " e.entry_type)

  unfoldable pub convert_entry : EntryBody → Result String (EntryRequest D)
  convert_entry e = checked_amount e (lib.new_from_string e.amount)

  abbrev add_entry :
      Result String (EntryRequest D)
      → Result String (List (EntryRequest D))
      → Result String (List (EntryRequest D))
  add_entry (err text) rest = err text
  add_entry (ok e) (err text) = err text
  add_entry (ok e) (ok es) = ok (e ∷ es)

  -- The loop stops at the first entry that is refused.
  unfoldable pub convert_entries : List EntryBody → Result String (List (EntryRequest D))
  unfolding convert_entry
  convert_entries [] = ok []
  convert_entries (e ∷ es) = add_entry (convert_entry e) (convert_entries es)

  abbrev with_entries :
      TransactionBody
      → Result String (List (EntryRequest D))
      → Result String (PostTransactionRequest D)
  with_entries req (err text) = err text
  with_entries req (ok entries) = ok (record {
    idempotency_key = req.idempotency_key;
    state = req.state;
    entries = entries;
    metadata = req.metadata;
  })

  unfoldable pub convert_to_service_request :
      TransactionBody → Result String (PostTransactionRequest D)
  unfolding convert_entries
  convert_to_service_request req = with_entries req (convert_entries req.entries)

  abbrev add_request :
      ℕ
      → Result String (PostTransactionRequest D)
      → Result String (List (PostTransactionRequest D))
      → Result String (List (PostTransactionRequest D))
  add_request i (err text) rest =
      err (join "Invalid request data at index " (join (lib.number_text i) (join ": " text)))
  add_request i (ok req) (err text) = err text
  add_request i (ok req) (ok reqs) = ok (req ∷ reqs)

  -- The loop of PostBatchTransactions, from the index `i`.
  unfoldable pub convert_batch :
      ℕ → List TransactionBody → Result String (List (PostTransactionRequest D))
  unfolding convert_to_service_request
  convert_batch i [] = ok []
  convert_batch i (req ∷ reqs) =
      add_request i (convert_to_service_request req) (convert_batch (suc i) reqs)

  module _ (env : Env) (v : TransactionValidator) (ttl : ℕ) (r : Rendering D)
      (request_id : Option String) where
    abbrev created : Transaction D → Response D
    created txn = record { status = 201; body = transaction txn }

    abbrev found : Transaction D → Response D
    found txn = record { status = 200; body = transaction txn }

    abbrev pub post_converted : Result String (PostTransactionRequest D) → Handler D
    post_converted (err text) = respond (refuse request_id (join "Invalid request data: " text))
    post_converted (ok req) =
        reply (post_transaction env v ttl req) created (handle_error r request_id)

    unfoldable pub post_transaction_handler : Result String TransactionBody → Handler D
    unfolding convert_to_service_request
    post_transaction_handler (err text) =
        respond (refuse request_id (join "Invalid request format: " text))
    post_transaction_handler (ok req) = post_converted (convert_to_service_request req)

    abbrev pub all_created : List (Transaction D) → Response D
    all_created txns = record { status = 201; body = transactions txns (length txns) }

    abbrev pub post_converted_batch : Result String (List (PostTransactionRequest D)) → Handler D
    post_converted_batch (err text) = respond (refuse request_id text)
    post_converted_batch (ok reqs) =
        reply (post_batch env v ttl reqs) all_created (handle_error r request_id)

    unfoldable pub post_batch_transactions_handler :
        Result String (List TransactionBody) → Handler D
    unfolding convert_batch
    post_batch_transactions_handler (err text) =
        respond (refuse request_id (join "Invalid request format: " text))
    post_batch_transactions_handler (ok reqs) = post_converted_batch (convert_batch 0 reqs)

    unfoldable pub get_transaction_handler : String → Handler D
    get_transaction_handler id =
        if same id ""
        then respond (refuse request_id "Transaction ID is required")
        else reply (get_transaction env id) found (handle_error r request_id)

    unfoldable pub settle_transaction_handler : String → Handler D
    settle_transaction_handler id =
        if same id ""
        then respond (bad_request "Transaction ID is required" none)
        else reply (settle_pending_transaction env id) found (handle_error r request_id)

    unfoldable pub cancel_transaction_handler : String → Handler D
    cancel_transaction_handler id =
        if same id ""
        then respond (bad_request "Transaction ID is required" none)
        else reply (cancel_pending_transaction env id) found (handle_error r request_id)

    abbrev pub reverse_bound : String → Result String ReversalRequest → Handler D
    reverse_bound id (err text) = respond (bad_request "Invalid request format" (some text))
    reverse_bound id (ok req) =
        reply (reverse_transaction env v ttl id req) created (handle_error r request_id)

    unfoldable pub reverse_transaction_handler : String → Result String ReversalRequest → Handler D
    reverse_transaction_handler id bound =
        if same id ""
        then respond (bad_request "Transaction ID is required" none)
        else reverse_bound id bound

    abbrev list_filtered : Result Problem TransactionFilter → Handler D
    list_filtered (err (error, details)) = respond (bad_request error (some details))
    list_filtered (ok filter) =
        reply (list_transactions env filter) (λ p. record { status = 200; body = page p })
          (λ e. record {
            status = 500;
            body = problem "Failed to retrieve transactions" (some (r.error_text e));
          })

    unfoldable pub list_transactions_handler : Params → Handler D
    unfolding transaction_filter
    list_transactions_handler params = list_filtered (transaction_filter params)
