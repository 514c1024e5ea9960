-- ===== src/Api/Response.antt =====
-- The answers of the HTTP layer: a status and a body.
use double_entry_ledger_engi.Accounts.{Account}
use double_entry_ledger_engi.Query.{TransactionPage}
use double_entry_ledger_engi.Domain.{Transaction, Balance}
use double_entry_ledger_engi.Store.{Error, M, World}
use double_entry_ledger_engi.Api.Errors.{
  with_request_id, ApiError, get_http_status_code, convert_to_api_error, validation_error,
  Rendering,
}
use double_entry_ledger_engi.Base.{ℕ, Option, String, some, none, Result, List, ok, err, ℤ}

pub record Sent : Type 0 where
  pub status : ℕ
  pub error : ApiError

-- SendErrorResponse; the request id is that of the context, where it has one.
unfoldable pub send_error_response : Option String → ApiError → Sent
unfolding with_request_id get_http_status_code
send_error_response none e = record { status = get_http_status_code e.code; error = e }
send_error_response (some id) e = record {
  status = get_http_status_code e.code;
  error = with_request_id id e;
}

pub data Body (D : Type 0) : Type 0 where
  transaction : Transaction D → Body D
  transactions : List (Transaction D) → ℕ → Body D
  page : TransactionPage D → Body D
  account : Account → Body D
  -- the accounts, their number, the limit and the offset
  accounts : List Account → ℕ → ℤ → ℤ → Body D
  metadata_updated : String → Body D
  balance : Balance D → Body D
  -- the account, the balances by currency and the time
  balances : String → List (String × Balance D) → ℕ → Body D
  api_error : ApiError → Body D
  -- gin.H with an "error", and "details" where there are any
  problem : String → Option String → Body D

pub record Response (D : Type 0) : Type 0 where
  pub status : ℕ
  pub body : Body D

-- What handlers use of decimal, uuid, fmt and time: decimal.NewFromString and uuid.Parse with the
-- texts of their errors, %d, and time.Parse of RFC 3339.
pub record Library (D : Type 0) : Type 0 where
  pub new_from_string : String → Result String D
  pub uuid_error : String → String
  pub number_text : ℕ → String
  pub parse_time : String → Option ℕ

abbrev pub Handler : Type 0 → Type 0
Handler D = World D → Response D × World D

module _ {D : Type 0} where
  abbrev pub bad_request : String → Option String → Response D
  bad_request error details = record { status = 400; body = problem error details }

  unfoldable pub respond : Response D → Handler D
  respond r w = (r, w)

  abbrev pub sent : Sent → Response D
  sent s = record { status = s.status; body = api_error s.error }

  abbrev pub answer_of :
      {A : Type 0}
      → (A → Response D)
      → (Error D → Response D)
      → Result (Error D) A × World D
      → Response D × World D
  answer_of f g (ok a, w) = (f a, w)
  answer_of f g (err e, w) = (g e, w)

  -- Calls a service and answers with its result or its error.
  unfoldable pub reply :
      {A : Type 0} → M D A → (A → Response D) → (Error D → Response D) → Handler D
  reply m f g w = answer_of f g (m w)

  -- handleTransactionError, handleAccountError and handleBalanceError
  unfoldable pub handle_error : Rendering D → Option String → Error D → Response D
  unfolding send_error_response convert_to_api_error
  handle_error r id e = sent (send_error_response id (convert_to_api_error r e))

  -- A request that the handler itself refuses.
  unfoldable pub refuse : Option String → String → Response D
  unfolding send_error_response validation_error
  refuse id text = sent (send_error_response id (validation_error text))
