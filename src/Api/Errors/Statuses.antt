-- ===== src/Api/Errors/Statuses.antt =====
-- The statuses that the conversion of errors leads to.
use double_entry_ledger_engi.Api.Texts.{lower_contains}
use double_entry_ledger_engi.Store.{
  Error, validation, driver, wrapped, message, optimistic_lock, context_done, no_rows,
}
use double_entry_ledger_engi.Base.{
  ℕ, Bool, String, any, ◌≡◌, arith, true, ◌==◌, ◌∷◌, [], refl, not, ◌&&◌, ◌||◌,
}
use double_entry_ledger_engi.Api.Errors.{
  Rendering, get_http_status_code, convert_text, convert_to_api_error, convert_validation_text,
}

-- The statuses of errors of no known type.
abbrev pub is_error_status : ℕ → Bool
is_error_status n = any (λ s. n == s) (400 ∷ 404 ∷ 409 ∷ 422 ∷ 500 ∷ [])

-- What a text tells, in small letters.
abbrev pub tells_missing : String → Bool
tells_missing text =
    lower_contains text "account not found"
    || (lower_contains text "account" && lower_contains text "not found")
    || (lower_contains text "transaction not found"
        || (lower_contains text "transaction" && lower_contains text "not found"))

abbrev pub tells_currency : String → Bool
tells_currency text =
    lower_contains text "currency"
    && (lower_contains text "invalid" || lower_contains text "unsupported")

abbrev pub tells_balance : String → Bool
tells_balance text = lower_contains text "insufficient balance"

abbrev pub tells_unbalanced : String → Bool
tells_unbalanced text =
    lower_contains text "not balanced"
    || (lower_contains text "debits" && lower_contains text "credits")

abbrev pub tells_invalid : String → Bool
tells_invalid text = lower_contains text "validation failed" || lower_contains text "invalid"

abbrev pub tells_failure : String → Bool
tells_failure text =
    lower_contains text "database"
    || lower_contains text "connection"
    || lower_contains text "sql"
    || (lower_contains text "event" && (lower_contains text "failed" || lower_contains text "emit"))

abbrev pub tells_conflict : String → Bool
tells_conflict text =
    lower_contains text "idempotency"
    && (lower_contains text "conflict" || lower_contains text "exists")

-- What the text of an error promises of its status: 404 for what was not found, else 400 for an
-- invalid currency, else 422 for a missing balance, else 400 for unbalanced entries and what is invalid
-- otherwise, else 409 for a conflict of idempotency that no failure of the database or of an event
-- overshadows, and else 500.
abbrev pub TextPromises : String → ℕ → Type 0
TextPromises text n =
    ((n == 404) ≡ tells_missing text)
    × ((n == 422) ≡ (not (tells_missing text) && not (tells_currency text) && tells_balance text))
    × ((n == 400) ≡ (
        not (tells_missing text)
        && (tells_currency text
            || (not (tells_balance text) && (tells_unbalanced text || tells_invalid text)))))
    × ((n == 409) ≡ (
        not (tells_missing text)
        && not (tells_currency text)
        && not (tells_balance text)
        && not (tells_unbalanced text)
        && not (tells_invalid text)
        && not (tells_failure text)
        && tells_conflict text))
    × (is_error_status n ≡ true)

-- What an error promises of its status.
abbrev pub Promises : {D : Type 0} → Rendering D → Error D → ℕ → Type 0
Promises r (validation e) n = n ≡ 400
Promises r (Error.insufficient_balance account currency required available) n = n ≡ 422
Promises r e n = TextPromises (r.error_text e) n

convert_validation_text-status :
    (field text : String) → get_http_status_code (convert_validation_text field text).code ≡ 400
unfolding get_http_status_code convert_validation_text
convert_validation_text-status field text = ground arith

convert_text-TextPromises :
    (text : String) → TextPromises text (get_http_status_code (convert_text text).code)
unfolding get_http_status_code convert_text
convert_text-TextPromises text =
    (ground arith, ground arith, ground arith, ground arith, ground arith)

module _ {D : Type 0} (r : Rendering D) where
  pub convert_to_api_error-Promises :
      (e : Error D) → Promises r e (get_http_status_code (convert_to_api_error r e).code)
  unfolding convert_to_api_error get_http_status_code
  convert_to_api_error-Promises (validation e) =
      convert_validation_text-status (r.field e) (r.message e)
  convert_to_api_error-Promises (Error.insufficient_balance account currency required available) =
      refl
  convert_to_api_error-Promises (driver f) = convert_text-TextPromises (r.error_text (driver f))
  convert_to_api_error-Promises (wrapped t e) =
      convert_text-TextPromises (r.error_text (wrapped t e))
  convert_to_api_error-Promises (message t s) =
      convert_text-TextPromises (r.error_text (message t s))
  convert_to_api_error-Promises (optimistic_lock m n) =
      convert_text-TextPromises (r.error_text (optimistic_lock m n))
  convert_to_api_error-Promises context_done = convert_text-TextPromises (r.error_text context_done)
  convert_to_api_error-Promises no_rows = convert_text-TextPromises (r.error_text no_rows)
