-- ===== src/Query/Listed.antt =====
-- The pages of ListTransactions and GetAccountStatement against the table of transactions.
use double_entry_ledger_engi.Store.Reading.{next_run}
use double_entry_ledger_engi.Query.Pages.{full, ReadsBack, listing, page_read}
use double_entry_ledger_engi.Domain.{Transaction}
use double_entry_ledger_engi.Base
use double_entry_ledger_engi.Base.{
  Bool, List, Option, ℕ, String, length, map, ◌≡◌, ltb, some, suc, ◌∷◌, ap, arith, none, ok, window,
  ◌+◌, ◌∙◌, [], not, refl, filter, is_empty, drop, ap₂, sym, window-rest, pure, true, ◌≢◌,
  Option-cases, subst, inl, inr, ◌>>=◌,
}
use double_entry_ledger_engi.Decimal.{Decimal}
use double_entry_ledger_engi.Query.{
  insert_ordered, ordered, list_transactions, TransactionFilter, TransactionPage, account_argument,
  is_ascending, selects, page_offset, page_limit, StatementFilter, get_account_statement, Statement,
  read_page, states, statement_page, statement_account,
}
use double_entry_ledger_engi.Store.{Env, run, Db, TransactionRow, Uuid, World, Error, M}

length-insert_ordered :
    (ascending : Bool) (r : TransactionRow) (rows : List TransactionRow)
    → length (insert_ordered ascending r rows) ≡ suc (length rows)
unfolding insert_ordered
length-insert_ordered ascending r [] = refl
length-insert_ordered ascending r (s ∷ rows) =
    ground (arith, length-insert_ordered ascending r rows)

length-ordered :
    (ascending : Bool) (rows : List TransactionRow) → length (ordered ascending rows) ≡ length rows
unfolding ordered
length-ordered ascending [] = refl
length-ordered ascending (r ∷ rows) =
    length-insert_ordered ascending r (ordered ascending rows)
    ∙ ap suc (length-ordered ascending rows)

length-map : {A B : Type 0} (f : A → B) (xs : List A) → length (map f xs) ≡ length xs
length-map f [] = refl
length-map f (x ∷ xs) = ap suc (length-map f xs)

-- The account that the filter names.
abbrev pub account_of : Env → Option String → Option Uuid
account_of env none = none
account_of env (some account) = env.parse account

module _ {D : Type 0} ⦃dec : Decimal D⦄ (env : Env) where
  has_more_iff :
      (o n : ℕ) (rows : List TransactionRow) (f : TransactionRow → Transaction D) (total : ℕ)
      → total ≡ length rows
      → ltb (o + length (map f (window o n rows))) total ≡ not (is_empty (drop (o + n) rows))
  has_more_iff o n rows f total e =
      ap₂ (λ k t. ltb (o + k) t) (length-map f (window o n rows)) e ∙ window-rest o n rows

  page_fields :
      (ascending : Bool) (where_clause : Db D → TransactionRow → Bool) (limit offset : ℕ)
      (db : Db D) (p : List (Transaction D) × ℕ)
      → (
        map (full env db) (window offset limit (listing ascending where_clause db)),
        length (filter (where_clause db) db.transactions),
      )
        ≡ p
      → (p.0 ≡ map (full env db) (window offset limit (listing ascending where_clause db)))
        × (p.1 ≡ length (listing ascending where_clause db))
        × (ltb (offset + length p.0) p.1
            ≡ not (is_empty (drop (offset + limit) (listing ascending where_clause db))))
  page_fields ascending where_clause limit offset db p e =
      let all : p.1 ≡ length (listing ascending where_clause db) =
        sym (ap (λ q. q.1) e)
        ∙ sym (length-ordered ascending (filter (where_clause db) db.transactions)) in
      let rows = sym (ap (λ q. q.0) e) in
      (
        rows,
        all,
        ap (λ ts. ltb (offset + length ts) p.1) rows
            ∙ has_more_iff offset limit (listing ascending where_clause db) (full env db) p.1 all,
      )

  pure_eq :
      {A : Type 0} (a b : A) (v : World D) → (pure {S = World D} {E = Error D} a v).0 ≡ ok b → a ≡ b
  unfolding run
  pure_eq a b v h = cc

  account_ok :
      (a : Option String) (w : World D) (o : Option Uuid)
      → (account_argument env a w).0 ≡ ok o
      → (o ≡ account_of env a) × ((account_argument env a w).1 ≡ w)
  unfolding run
  account_ok none w o h = (cc, refl)
  account_ok (some a) w o h = ground arith

  -- The transactions that meet a filter, in the order asked for; and those of a statement.
  abbrev pub listed : TransactionFilter → Db D → List TransactionRow
  listed filter =
      listing (is_ascending filter.order_by)
        (λ db. selects db filter (account_of env filter.account_id))

  abbrev pub stated : StatementFilter → Uuid → Db D → List TransactionRow
  stated filter id = listing true (λ db. states db filter id)

  -- The page in terms of the list that the model of the query computes.
  pub list_transactions-window :
      (filter : TransactionFilter) (w : World D) (page : TransactionPage D)
      → ReadsBack env
      → (list_transactions env filter w).0 ≡ ok page
      → (page.transactions
          ≡ map
              (full env w.db)
              (window (page_offset filter.offset) (page_limit filter.limit) (listed filter w.db)))
        × (page.total_count ≡ length (listed filter w.db))
        × (page.has_more
            ≡ not (
                is_empty (
                  drop (page_offset filter.offset + page_limit filter.limit) (listed filter w.db))))
  unfolding list_transactions
  list_transactions-window filter w page reads_back h =
      let (account, account_is, h1, _) =
        next_run (account_argument env filter.account_id) _ w page h in
      let (account_eq, same_world) = account_ok filter.account_id w account account_is in
      let (p, p_is, h2, _) =
        next_run
          (read_page env "failed to count transactions" "failed to query transactions"
            (is_ascending filter.order_by) (λ db. selects db filter account)
            (page_limit filter.limit) (page_offset filter.offset))
          _ _ page h1 in
      let read =
        page_read env _ _ (is_ascending filter.order_by) (λ db. selects db filter account)
          (page_limit filter.limit) (page_offset filter.offset) _ p reads_back p_is in
      let (rows, all, rest) =
        page_fields (is_ascending filter.order_by)
          (λ db. selects db filter (account_of env filter.account_id)) (page_limit filter.limit)
          (page_offset filter.offset) w.db p
          (subst
            (λ o.
              (
                map (full env w.db) (
                    window (page_offset filter.offset) (page_limit filter.limit)
                      (listing (is_ascending filter.order_by) (λ db. selects db filter o) w.db)),
                length (Base.filter (selects w.db filter o) w.db.transactions),
              )
              ≡ p)
            account_eq
            (subst
              (λ (v : World D).
                (
                  map (full env v.db) (
                      window (page_offset filter.offset) (page_limit filter.limit) (
                        listing (is_ascending filter.order_by) (λ db. selects db filter account)
                          v.db)),
                  length (Base.filter (selects v.db filter account) v.db.transactions),
                )
                ≡ p)
              same_world read)) in
      let answer = pure_eq _ page _ h2 in
      (
        sym (ap (λ x. x.transactions) answer) ∙ rows,
        sym (ap (λ x. x.total_count) answer) ∙ all,
        sym (ap (λ x. x.has_more) answer) ∙ rest,
      )

  account_stated :
      (o : Option Uuid) (account : String) (k : Uuid → M D (Statement D)) (w : World D)
      (page : Statement D)
      → ((statement_account env account o >>= k) w).0 ≡ ok page
      → (id : Uuid) × (o ≡ some id) × ((k id w).0 ≡ ok page)
  unfolding run
  account_stated none account k w page h = absurd cc
  account_stated (some id) account k w page h = (id, refl, h)

  -- A statement that is answered is of a UUID and holds, with all their entries, the transactions at
  -- its offset and up to its limit of one list, oldest first: those of the account that meet the
  -- filter. The total is the length of that list, and `has_more` tells whether any of it is left.
  pub get_account_statement-window :
      (account : String) (filter : StatementFilter) (w : World D) (page : Statement D)
      → ReadsBack env
      → (get_account_statement env account filter w).0 ≡ ok page
      → (id : Uuid) × (env.parse account ≡ some id)
        × (page.transactions
            ≡ map (full env w.db) (
                window
                  (page_offset filter.offset)
                  (page_limit filter.limit)
                  (stated filter id w.db)))
        × (page.total_count ≡ length (stated filter id w.db))
        × (page.has_more
            ≡ not (
                is_empty (
                  drop
                    (page_offset filter.offset + page_limit filter.limit)
                    (stated filter id w.db))))
  unfolding get_account_statement statement_page
  get_account_statement-window account filter w page reads_back h =
      let (id, e, h1) = account_stated (env.parse account) account _ w page h in
      let (p, p_is, h2, _) = next_run (statement_page env filter id) _ w page h1 in
      let (rows, all, rest) =
        page_fields true (λ db. states db filter id) (page_limit filter.limit)
          (page_offset filter.offset) w.db p
          (page_read env _ _ true (λ db. states db filter id) (page_limit filter.limit)
            (page_offset filter.offset) w p reads_back p_is) in
      let answer = pure_eq _ page _ h2 in
      (
        id,
        e,
        sym (ap (λ x. x.transactions) answer) ∙ rows,
        sym (ap (λ x. x.total_count) answer) ∙ all,
        sym (ap (λ x. x.has_more) answer) ∙ rest,
      )
