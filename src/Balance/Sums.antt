-- ===== src/Balance/Sums.antt =====
-- The aggregates of internal/service/balance as one sum of signed amounts.
use double_entry_ledger_engi.Ledger.{has_id}
use double_entry_ledger_engi.Decimal.Group.{nil-plus, negate-nil, negate-plus, plus_swap}
use double_entry_ledger_engi.Domain.Validator.Balanced.{signed}
use double_entry_ledger_engi.Balance.{
  credit_amount, credits, debit_amount, debits, matching, joined, of_account,
}
use double_entry_ledger_engi.Base.{
  List, Bool, ◌++◌, ◌∷◌, ◌≡◌, [], ap, ap₂, sym, ◌||◌, ◌&&◌, if◌then◌else◌, ◌∙◌, String, false,
  filter, Option, some, find, true, refl, none,
}
use double_entry_ledger_engi.Store.{EntryRow, Db, Uuid, TransactionRow}
use double_entry_ledger_engi.Domain.{EntryType, debit, credit}
use double_entry_ledger_engi.Decimal.{Decimal, DecimalLaws}

module _ {D : Type 0} ⦃dec : Decimal D⦄ (laws : DecimalLaws D dec) where
  open laws use {
    Number, value, nil, plus, negate, plus_assoc, plus_comm, plus-nil, plus-negate, value-zero,
    value-add, value-sub,
  }

  abbrev pub row_sum : List (EntryRow D) → Number
  row_sum [] = nil
  row_sum (e ∷ es) = plus (signed laws e.entry_type e.amount) (row_sum es)

  sides-signed :
      (t : EntryType) (a : D)
      → plus (value (credit_amount t a)) (negate (value (debit_amount t a))) ≡ signed laws t a
  sides-signed debit a = ap (λ x. plus x (negate (value a))) value-zero ∙ nil-plus laws _
  sides-signed credit a =
      ap (λ x. plus (value a) (negate x)) value-zero
      ∙ ap (plus (value a)) (negate-nil laws)
      ∙ plus-nil _
  sides-signed (EntryType.unknown _) a = plus-negate _

  -- SUM of the credits less SUM of the debits is the sum of the signed amounts.
  pub credits-sub-debits :
      (es : List (EntryRow D)) → value (dec.sub (credits es) (debits es)) ≡ row_sum es
  credits-sub-debits es = value-sub _ _ ∙ go es
    where
      go :
          (l : List (EntryRow D)) → plus (value (credits l)) (negate (value (debits l))) ≡ row_sum l
      go [] = plus-negate _
      go (e ∷ l) =
          ap₂ (λ x y. plus x (negate y)) (value-add _ _) (value-add _ _)
          ∙ ap (plus _) (negate-plus laws _ _)
          ∙ plus_swap laws _ _ _ _
          ∙ ap₂ plus (sides-signed e.entry_type e.amount) (go l)

  pub row_sum-append :
      (xs ys : List (EntryRow D)) → row_sum (xs ++ ys) ≡ plus (row_sum xs) (row_sum ys)
  row_sum-append [] ys = sym (nil-plus laws _)
  row_sum-append (e ∷ xs) ys = ap (plus _) (row_sum-append xs ys) ∙ sym (plus_assoc _ _ _)

  split_step :
      (a b : Bool) (e : EntryRow D) (ps qs rs : List (EntryRow D))
      → (a && b) ≡ false
      → row_sum rs ≡ plus (row_sum ps) (row_sum qs)
      → row_sum (if a || b then e ∷ rs else rs)
        ≡ plus (row_sum (if a then e ∷ ps else ps)) (row_sum (if b then e ∷ qs else qs))
  split_step true true e ps qs rs h ih = cc
  split_step true false e ps qs rs h ih = ap (plus _) ih ∙ sym (plus_assoc _ _ _)
  split_step false true e ps qs rs h ih =
      ap (plus _) ih
      ∙ sym (plus_assoc _ _ _)
      ∙ ap (λ x. plus x (row_sum qs)) (plus_comm _ _)
      ∙ plus_assoc _ _ _
  split_step false false e ps qs rs h ih = ih

  -- Two disjoint conditions that make up a third split its sum.
  pub row_sum-split :
      (p q r : EntryRow D → Bool)
      → ((e : EntryRow D) → r e ≡ (p e || q e))
      → ((e : EntryRow D) → (p e && q e) ≡ false)
      → (es : List (EntryRow D))
      → row_sum (filter r es) ≡ plus (row_sum (filter p es)) (row_sum (filter q es))
  row_sum-split p q r both apart [] = sym (plus-nil _)
  row_sum-split p q r both apart (e ∷ es) =
      rw (both e) (split_step (p e) (q e) e _ _ _ (apart e) (row_sum-split p q r both apart es))

  -- The condition of a query, from the condition on its transaction.
  pub matching-split :
      (db : Db D) (account : Uuid) (currency : String) (p q r : TransactionRow → Bool)
      → ((t : TransactionRow) → r t ≡ (p t || q t))
      → ((t : TransactionRow) → (p t && q t) ≡ false)
      → row_sum (matching db account currency r)
        ≡ plus (row_sum (matching db account currency p)) (row_sum (matching db account currency q))
  matching-split db account currency p q r both apart =
      row_sum-split _ _ _
        (λ e.
          both_rows (of_account account currency e)
            (find (has_id e.transaction_id) db.transactions))
        (λ e.
          apart_rows (of_account account currency e)
            (find (has_id e.transaction_id) db.transactions))
        db.entries
    where
      both_rows :
          (b : Bool) (o : Option TransactionRow)
          → (b && joined r o) ≡ ((b && joined p o) || (b && joined q o))
      both_rows true none = refl
      both_rows true (some t) = both t
      both_rows false o = refl

      apart_rows :
          (b : Bool) (o : Option TransactionRow) → ((b && joined p o) && (b && joined q o)) ≡ false
      apart_rows true none = refl
      apart_rows true (some t) = apart t
      apart_rows false o = refl
