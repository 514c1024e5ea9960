-- ===== src/Accounts/Created.antt =====
-- What CreateAccount of internal/infrastructure/postgres/account_repository.go leaves in the tables.
use double_entry_ledger_engi.Store.Reading.{next_run}
use double_entry_ledger_engi.Domain.{AccountCurrency, account_type_is_valid}
use double_entry_ledger_engi.Accounts.{
  create_account, create_in_tx, insert_account_row, insert_currencies, insert_currency_row,
  CreateAccountRequest, CurrencyConfig, account_row, currency_row, scan_currency, Account,
  scan_account,
}
use double_entry_ledger_engi.Store.{
  Db, Env, CurrencyRow, Uuid, AccountRow, run, World, wrap, Error, commit, now, new_uuid, begin, M,
}
use double_entry_ledger_engi.Base.{
  List, pure, ℕ, ◌++◌, ◌≡◌, String, [], ◌∷◌, ap, map, refl, ⊤, ok, arith, ◌∙◌, raise, sym, true,
  is_empty, false, Bool, if◌then◌else◌, Result,
}

-- The tables with further currency rows.
abbrev add_currencies : {D : Type 0} → Db D → List CurrencyRow → Db D
add_currencies db rows = record db { account_currencies = db.account_currencies ++ rows }

-- The tables with the account of a request and its currencies: each column is a field of the request,
-- the new identifier, the time, or that of one of its currencies.
abbrev pub add_account : {D : Type 0} → Db D → Uuid → ℕ → CreateAccountRequest → Db D
add_account db id time req = record db {
  accounts =
      db.accounts
      ++ record {
        account_id = id;
        account_type = req.account_type;
        created_at = time;
        updated_at = time;
        metadata = req.metadata;
      }
        ∷ [];
  account_currencies =
      db.account_currencies
      ++ map
          (λ (c : CurrencyConfig). record {
            account_id = id;
            currency_code = c.currency_code;
            allow_negative = c.allow_negative;
            created_at = time;
          })
          req.currencies;
}

-- The answer for a request: its own fields under the new identifier and the time.
abbrev pub account_of_request : Uuid → ℕ → CreateAccountRequest → Account
account_of_request id time req = record {
  account_id = id;
  account_type = req.account_type;
  currencies =
      map
        (λ (c : CurrencyConfig). record {
          currency_code = c.currency_code;
          allow_negative = c.allow_negative;
          created_at = time;
        })
        req.currencies;
  created_at = time;
  updated_at = time;
  metadata = req.metadata;
}

map-map :
    {A B C : Type 0} (g : B → C) (f : A → B) (xs : List A)
    → map g (map f xs) ≡ map (λ x. g (f x)) xs
map-map g f [] = refl
map-map g f (x ∷ xs) = ap (λ l. g (f x) ∷ l) (map-map g f xs)

append_one :
    (xs : List CurrencyRow) (y : CurrencyRow) (ys : List CurrencyRow)
    → (xs ++ y ∷ []) ++ ys ≡ xs ++ y ∷ ys
append_one [] y ys = refl
append_one (x ∷ xs) y ys = ap (λ l. x ∷ l) (append_one xs y ys)

append_nil : (xs : List CurrencyRow) → xs ≡ xs ++ []
append_nil [] = refl
append_nil (x ∷ xs) = ap (λ l. x ∷ l) (append_nil xs)

module _ {D : Type 0} (env : Env) where
  currency_written :
      (t : String) (row : CurrencyRow) (w : World D) (u : ⊤)
      → (wrap t (insert_currency_row env row) w).0 ≡ ok u
      → (wrap t (insert_currency_row env row) w).1.tx ≡ add_currencies w.tx (row ∷ [])
  unfolding insert_currency_row run
  currency_written t row w u h = ground arith

  account_written :
      (t : String) (row : AccountRow) (w : World D) (u : ⊤)
      → (wrap t (insert_account_row env row) w).0 ≡ ok u
      → (wrap t (insert_account_row env row) w).1.tx
        ≡ record w.tx { accounts = w.tx.accounts ++ row ∷ [] }
  unfolding insert_account_row run
  account_written t row w u h = ground arith

  currencies_written :
      (id : Uuid) (time : ℕ) (cs : List CurrencyConfig) (w : World D) (xs : List AccountCurrency)
      → (insert_currencies env id time cs w).0 ≡ ok xs
      → ((insert_currencies env id time cs w).1.tx
          ≡ add_currencies w.tx (map (currency_row id time) cs))
        × (xs ≡ map scan_currency (map (currency_row id time) cs))
  unfolding insert_currencies pure
  currencies_written id time [] w xs h =
      (ap (λ l. record w.tx { account_currencies = l }) (append_nil w.tx.account_currencies), cc)
  currencies_written id time (c ∷ cs) w xs h =
      let (u, first, rest, end) =
        next_run
          (wrap "failed to insert account currency"
            (insert_currency_row env (currency_row id time c)))
          _ w xs h in
      let (ys, others, last, end2) = next_run (insert_currencies env id time cs) _ _ xs rest in
      let (rows_written, rows_are) = currencies_written id time cs _ ys others in
      (
        ap (λ v. v.tx) (end ∙ end2)
            ∙ rows_written
            ∙ ap (λ d. add_currencies d (map (currency_row id time) cs))
                (currency_written _ (currency_row id time c) w u first)
            ∙ ap (λ l. record w.tx { account_currencies = l })
                (append_one w.tx.account_currencies (currency_row id time c)
                  (map (currency_row id time) cs)),
        cc,
      )

  committed_db :
      (t : String) (w : World D) (u : ⊤)
      → (wrap t (commit env) w).0 ≡ ok u
      → (wrap t (commit env) w).1.db ≡ w.tx
  unfolding run
  committed_db t w u h = ground arith

  begun_tx :
      (t : String) (w : World D) → (now env (new_uuid env (wrap t (begin env) w).1).1).1.tx ≡ w.db
  unfolding run
  begun_tx t w = refl

  add_twice :
      (d db : Db D) (id : Uuid) (time : ℕ) (req : CreateAccountRequest)
      → d ≡ record db { accounts = db.accounts ++ account_row id time req ∷ [] }
      → add_currencies d (map (currency_row id time) req.currencies) ≡ add_account db id time req
  add_twice d db id time req e =
      ap (λ x. add_currencies x (map (currency_row id time) req.currencies)) e

  same_answer : {A : Type 0} (a r : A) (o : Result (Error D) A) → o ≡ ok a → o ≡ ok r → a ≡ r
  same_answer a r o h k = cc

  created_in_tx :
      (req : CreateAccountRequest) (w : World D) (a : Account)
      → (create_in_tx env req w).0 ≡ ok a
      → (id : Uuid) × (time : ℕ) × ((create_in_tx env req w).1.db ≡ add_account w.db id time req)
        × (a ≡ account_of_request id time req)
  unfolding create_in_tx pure
  created_in_tx req w a h =
      let (u0, begun, h0, e0) = next_run _ _ w a h in
      let (id, _, h1, e1) = next_run (new_uuid env) _ _ a h0 in
      let (time, _, h2, e2) = next_run (now env) _ _ a h1 in
      let (u3, inserted, h3, e3) = next_run _ _ _ a h2 in
      let (xs, entered, h4, e4) = next_run _ _ _ a h3 in
      let (u5, done, h5, e5) = next_run _ _ _ a h4 in
      let (rows_written, rows_are) = currencies_written id time req.currencies _ xs entered in
      (
        id,
        time,
        ap (λ v. v.db) (e0 ∙ e1 ∙ e2 ∙ e3 ∙ e4 ∙ e5)
            ∙ committed_db _ _ u5 done
            ∙ rows_written
            ∙ ap (λ d. add_currencies d (map (currency_row id time) req.currencies))
                (account_written _ (account_row id time req) _ u3 inserted)
            ∙ (λ i. add_account (begun_tx "failed to begin transaction" w i) id time req),
        sym (same_answer _ a _ refl h5)
            ∙ ap (scan_account (account_row id time req))
                (rows_are ∙ map-map scan_currency (currency_row id time) req.currencies),
      )

  guards_passed :
      {A : Type 0} (p q : Bool) (m : M D A) (x y : Error D) (w : World D) (a : A)
      → ((if p then if q then raise x else m else raise y) w).0 ≡ ok a
      → (p ≡ true) × (q ≡ false) × ((if p then if q then raise x else m else raise y) ≡ m)
  unfolding raise
  guards_passed true false m x y w a h = (refl, refl, refl)
  guards_passed true true m x y w a h = absurd cc
  guards_passed false q m x y w a h = absurd cc

  -- Creating an account that succeeds had a valid type and at least one currency, adds to the
  -- committed tables one account row with the type and metadata of the request and one row for each of
  -- its currencies, in their order and with their policy, all under one new id, and answers with the
  -- same account; all else in the tables is as it was.
  pub create_account-add_account :
      (req : CreateAccountRequest) (w : World D) (a : Account)
      → (create_account env req w).0 ≡ ok a
      → (account_type_is_valid req.account_type ≡ true)
        × (is_empty req.currencies ≡ false)
        × ((create_account env req w).1.db ≡ add_account w.db a.account_id a.created_at req)
        × (a ≡ account_of_request a.account_id a.created_at req)
  unfolding create_account raise
  create_account-add_account req w a h =
      let (valid, some_currency, same_call) = guards_passed _ _ (create_in_tx env req) _ _ w a h in
      let (id, time, written, answer) =
        created_in_tx req w a (sym (ap (λ m. (m w).0) same_call) ∙ h) in
      (
        valid,
        some_currency,
        ap (λ m. (m w).1.db) same_call
            ∙ written
            ∙ sym (ap (λ x. add_account w.db x.account_id x.created_at req) answer),
        answer ∙ sym (ap (λ x. account_of_request x.account_id x.created_at req) answer),
      )
