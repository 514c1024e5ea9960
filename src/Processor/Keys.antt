-- ===== src/Processor/Keys.antt =====
-- Every account of the impacts is among the accounts that are checked.
use double_entry_ledger_engi.Processor.{EntryRequest}
use double_entry_ledger_engi.Processor.Impacts.{
  insert_id, account_ids, add_impact, impacts_from, Impact, balance_impacts, ids_from,
}
use double_entry_ledger_engi.Decimal.{Decimal}
use double_entry_ledger_engi.Base.{
  if◌then◌else◌, Bool, List, String, ◌≡◌, any, same_iff, true, ◌∷◌, All, Bool-cases, [], false,
  same, inl, refl, inr, sym,
}

-- An account that an entry names is in the list.
abbrev pub Known : List String → String → Type 0
Known ids id = any (same id) ids ≡ true

later : (b c : Bool) → c ≡ true → (if b then true else c) ≡ true
later true c h = refl
later false c h = h

known_tail :
    (b c d : Bool)
    → (c ≡ true → d ≡ true)
    → (if b then true else c) ≡ true
    → (if b then true else d) ≡ true
known_tail true c d k h = refl
known_tail false c d k h = k h

insert_id-new : (id : String) (ids : List String) → Known (insert_id id ids) id
unfolding insert_id
insert_id-new id [] = rw ((same_iff id id).1 refl) refl
insert_id-new id (i ∷ ids) = elim (Bool-cases (same i id)) [
  | inl e ↦ rw e (rw ((same_iff id i).1 (sym ((same_iff i id).0 e))) refl)
  | inr e ↦ rw e (later (same id i) _ (insert_id-new id ids))
]

insert_id-old : (id x : String) (ids : List String) → Known ids x → Known (insert_id id ids) x
unfolding insert_id
insert_id-old id x [] h = absurd cc
insert_id-old id x (i ∷ ids) h = elim (Bool-cases (same i id)) [
  | inl e ↦ rw e h
  | inr e ↦ rw e (known_tail (same x i) _ _ (insert_id-old id x ids) h)
]

module _ {D : Type 0} ⦃dec : Decimal D⦄ where
  -- Every key of the map has its account among `ids`.
  abbrev pub AllKnown : List String → List (Impact D) → Type 0
  AllKnown ids = All (λ (i : Impact D). Known ids i.account_id)

  insert_id-AllKnown :
      (id : String) (ids : List String) (is : List (Impact D))
      → AllKnown ids is
      → AllKnown (insert_id id ids) is
  insert_id-AllKnown id ids [] h = tt
  insert_id-AllKnown id ids (i ∷ is) h =
      (insert_id-old id i.account_id ids h.0, insert_id-AllKnown id ids is h.1)

  cons_if :
      (ids : List String) (b : Bool) (i j : Impact D) (is js : List (Impact D))
      → j.account_id ≡ i.account_id
      → Known ids i.account_id
      → AllKnown ids is
      → AllKnown ids js
      → AllKnown ids (if b then j ∷ is else i ∷ js)
  cons_if ids true i j is js e h k l = (rw e h, k)
  cons_if ids false i j is js e h k l = (h, l)

  add_impact-AllKnown :
      (e : EntryRequest D) (ids : List String) (is : List (Impact D))
      → AllKnown ids is
      → AllKnown (insert_id e.account_id ids) (add_impact e is)
  unfolding add_impact
  add_impact-AllKnown e ids [] h = (insert_id-new e.account_id ids, tt)
  add_impact-AllKnown e ids (i ∷ is) h =
      cons_if _ _ i _ is _ refl (insert_id-old e.account_id i.account_id ids h.0)
        (insert_id-AllKnown e.account_id ids is h.1) (add_impact-AllKnown e ids is h.1)

  impacts_from-AllKnown :
      (es : List (EntryRequest D)) (ids : List String) (is : List (Impact D))
      → AllKnown ids is
      → AllKnown (ids_from ids es) (impacts_from is es)
  unfolding impacts_from
  impacts_from-AllKnown [] ids is h = h
  impacts_from-AllKnown (e ∷ es) ids is h =
      impacts_from-AllKnown es (insert_id e.account_id ids) (add_impact e is)
        (add_impact-AllKnown e ids is h)

  -- Each account of the impacts is one of those that are checked.
  pub account_ids-AllKnown :
      (es : List (EntryRequest D)) → AllKnown (account_ids es) (balance_impacts es)
  unfolding account_ids balance_impacts
  account_ids-AllKnown es = impacts_from-AllKnown es [] [] tt
