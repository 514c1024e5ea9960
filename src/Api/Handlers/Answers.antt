-- ===== src/Api/Handlers/Answers.antt =====
-- What an answer of a handler tells of the ledger.
use double_entry_ledger_engi.Store.Frame.{IsAtomic}
use double_entry_ledger_engi.Processor.Retried.{ledger}
use double_entry_ledger_engi.Api.Errors.{
  Rendering, validation_error, get_http_status_code, new_api_error,
}
use double_entry_ledger_engi.Api.Errors.Statuses.{
  is_error_status, Promises, convert_to_api_error-Promises,
}
use double_entry_ledger_engi.Api.Response.{
  Response, reply, handle_error, refuse, send_error_response, answer_of,
}
use double_entry_ledger_engi.Store.{
  M, World, Error, validation, driver, wrapped, message, optimistic_lock, context_done, no_rows,
}
use double_entry_ledger_engi.Base.{
  ℕ, Option, ◌≡◌, ◌≤◌, String, ok, true, arith, ◌⊎◌, Result, err, inl, some, inr, none, refl,
}

-- The service has returned a result, and the answer shows it.
abbrev pub IsServed :
    {D A : Type 0} → M D A → (A → Response D) → World D → Response D × World D → Type 0
IsServed {A = A} m f w p = (a : A) × ((m w).0 ≡ ok a) × (p ≡ (f a, (m w).1))

-- The answer is an error, and the ledger is as it was.
abbrev pub IsRefused : {D : Type 0} → World D → Response D × World D → Type 0
IsRefused w p = (400 ≤ p.0.status) × (ledger p.1.db ≡ ledger w.db)

at_least_400 : (n : ℕ) → is_error_status n ≡ true → 400 ≤ n
at_least_400 n h = ground arith

promised : {D : Type 0} (r : Rendering D) (e : Error D) (n : ℕ) → Promises r e n → 400 ≤ n
promised r (validation e) n h = omega arith
promised r (Error.insufficient_balance account currency required available) n h = omega arith
promised r (driver f) n (_, _, _, _, h) = at_least_400 n h
promised r (wrapped t e) n (_, _, _, _, h) = at_least_400 n h
promised r (message t s) n (_, _, _, _, h) = at_least_400 n h
promised r (optimistic_lock a b) n (_, _, _, _, h) = at_least_400 n h
promised r context_done n (_, _, _, _, h) = at_least_400 n h
promised r no_rows n (_, _, _, _, h) = at_least_400 n h

pub refuse_status :
    (D : Type 0) (id : Option String) (text : String) → 400 ≤ (refuse {D = D} id text).status
unfolding refuse send_error_response validation_error get_http_status_code new_api_error
refuse_status D none text = omega arith
refuse_status D (some id) text = omega arith

module _ {D : Type 0} where
  pub error_status :
      (r : Rendering D) (id : Option String) (e : Error D) → 400 ≤ (handle_error r id e).status
  unfolding handle_error send_error_response
  error_status r none e = promised r e _ (convert_to_api_error-Promises r e)
  error_status r (some id) e = promised r e _ (convert_to_api_error-Promises r e)

  answered :
      {A : Type 0} (f : A → Response D) (g : Error D → Response D) (w : World D)
      (p : Result (Error D) A × World D)
      → ((e : Error D) → 400 ≤ (g e).status)
      → ((e : Error D) → p.0 ≡ err e → ledger p.1.db ≡ ledger w.db)
      → ((a : A) × (p.0 ≡ ok a) × (answer_of f g p ≡ (f a, p.1))) ⊎ IsRefused w (answer_of f g p)
  answered f g w (ok a, t) status undone = inl (a, refl, refl)
  answered f g w (err e, t) status undone = inr (status e, undone e refl)

  pub replied :
      {A : Type 0} (m : M D A) (f : A → Response D) (r : Rendering D) (id : Option String)
      (w : World D)
      → IsAtomic ledger m
      → IsServed m f w (reply m f (handle_error r id) w)
        ⊎ IsRefused w (reply m f (handle_error r id) w)
  unfolding reply
  replied m f r id w atomic =
      answered f (handle_error r id) w (m w) (error_status r id) (atomic.undone w)
