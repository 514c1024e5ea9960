-- ===== src/Processor/Impacts.antt =====
-- The first loop of validateAccountsForPost (internal/service/transaction/processor_validate.go): the
-- accounts of a request, and the change of each account and currency. A Go map is an association
-- list in the order in which the keys were first written.
use double_entry_ledger_engi.Base.{Bool, String, List, [], ◌∷◌, same, ◌&&◌, if◌then◌else◌}
use double_entry_ledger_engi.Decimal.{Decimal}
use double_entry_ledger_engi.Domain.{EntryType, credit}
use double_entry_ledger_engi.Processor.{EntryRequest}

-- accountIDs[id] = true
unfoldable pub insert_id : String → List String → List String
insert_id id [] = id ∷ []
insert_id id (i ∷ ids) = if same i id then i ∷ ids else i ∷ insert_id id ids

abbrev pub ids_from : {D : Type 0} → List String → List (EntryRequest D) → List String
ids_from ids [] = ids
ids_from ids (e ∷ es) = ids_from (insert_id e.account_id ids) es

unfoldable pub account_ids : {D : Type 0} → List (EntryRequest D) → List String
unfolding insert_id
account_ids = ids_from []

-- accountCurrencyKey, with the sum of the impacts so far.
pub record Impact (D : Type 0) : Type 0 where
  pub account_id : String
  pub currency : String
  pub amount : D

module _ {D : Type 0} ⦃dec : Decimal D⦄ where
  -- A credit adds; every other entry subtracts.
  abbrev pub apply_entry : EntryType → D → D → D
  apply_entry credit impact amount = dec.add impact amount
  apply_entry _ impact amount = dec.sub impact amount

  abbrev pub is_key : String → String → Impact D → Bool
  is_key account currency i = same i.account_id account && same i.currency currency

  abbrev pub first_impact : EntryRequest D → Impact D
  first_impact e = record {
    account_id = e.account_id;
    currency = e.currency_code;
    amount = apply_entry e.entry_type dec.zero e.amount;
  }

  unfoldable pub add_impact : EntryRequest D → List (Impact D) → List (Impact D)
  add_impact e [] = first_impact e ∷ []
  add_impact e (i ∷ is) =
      if is_key e.account_id e.currency_code i
      then record i { amount = apply_entry e.entry_type i.amount e.amount } ∷ is
      else i ∷ add_impact e is

  unfoldable pub impacts_from : List (Impact D) → List (EntryRequest D) → List (Impact D)
  impacts_from is [] = is
  impacts_from is (e ∷ es) = impacts_from (add_impact e is) es

  unfoldable pub balance_impacts : List (EntryRequest D) → List (Impact D)
  unfolding impacts_from add_impact
  balance_impacts = impacts_from []
