-- ===== src/Concurrency/Locks.antt =====
-- The accounts that LockMultipleAccountsForUpdate locks, and their order.
use double_entry_ledger_engi.Concurrency.Texts.{text_le_total}
use double_entry_ledger_engi.Concurrency.{
  insert_text, sort_strings, unique_after, unique_strings, text_le,
}
use double_entry_ledger_engi.Base.{
  Bool, List, String, any, if◌then◌else◌, ◌∷◌, ◌≡◌, [], true, false, ◌≢◌, refl, Bool-cases, ◌∙◌, ap,
  inl, same, inr, same_iff, subst, sym,
}

pub later : (b c : Bool) → c ≡ true → (if b then true else c) ≡ true
later true c h = refl
later false c h = h

pick_second :
    (a b c : Bool)
    → (if a then true else if b then true else c) ≡ (if b then true else if a then true else c)
pick_second true true c = refl
pick_second true false c = refl
pick_second false true c = refl
pick_second false false c = refl

any_if :
    (p : String → Bool) (b : Bool) (s t : String) (ts us : List String)
    → any p us ≡ any p (s ∷ ts)
    → any p (if b then s ∷ t ∷ ts else t ∷ us) ≡ any p (s ∷ t ∷ ts)
any_if p true s t ts us h = refl
any_if p false s t ts us h = rw h (pick_second (p t) (p s) (any p ts))

any-insert_text :
    (p : String → Bool) (s : String) (ts : List String) → any p (insert_text s ts) ≡ any p (s ∷ ts)
unfolding insert_text
any-insert_text p s [] = refl
any-insert_text p s (t ∷ ts) = any_if p (text_le s t) s t ts _ (any-insert_text p s ts)

any-sort_strings : (p : String → Bool) (ss : List String) → any p (sort_strings ss) ≡ any p ss
unfolding sort_strings
any-sort_strings p [] = refl
any-sort_strings p (s ∷ ss) =
    any-insert_text p s (sort_strings ss)
    ∙ ap (λ b. if p s then true else b) (any-sort_strings p ss)

drop_repeat :
    (b c x y : Bool)
    → b ≡ c
    → (if c then true else x) ≡ (if c then true else y)
    → (if c then true else x) ≡ (if c then true else if b then true else y)
drop_repeat b true x y e h = refl
drop_repeat b false x y e h = rw e h

any-unique_after :
    (p : String → Bool) (last : String) (ss : List String)
    → any p (last ∷ unique_after last ss) ≡ any p (last ∷ ss)
unfolding unique_after
any-unique_after p last [] = refl
any-unique_after p last (s ∷ ss) = elim (Bool-cases (same s last)) [
  | inl e ↦
      rw e
        (drop_repeat (p s) (p last) _ _ (ap p ((same_iff s last).0 e)) (any-unique_after p last ss))
  | inr e ↦ rw e (ap (λ b. if p last then true else b) (any-unique_after p s ss))
]

-- Every test of texts finds one among the sorted texts without repetitions exactly when it finds one in the given.
pub any-unique_strings :
    (p : String → Bool) (ss : List String) → any p (unique_strings (sort_strings ss)) ≡ any p ss
unfolding unique_strings
any-unique_strings p ss = go (sort_strings ss) ∙ any-sort_strings p ss
  where
    go : (ts : List String) → any p (unique_strings ts) ≡ any p ts
    go [] = refl
    go (t ∷ ts) = any-unique_after p t ts

-- Strictly increasing in the order of texts.
abbrev pub Before : String → String → Type 0
Before s t = (text_le s t ≡ true) × (s ≢ t)

abbrev pub Increasing : String → List String → Type 0
Increasing s [] = Unit
Increasing s (t ∷ ts) = Before s t × Increasing t ts

abbrev pub IsIncreasing : List String → Type 0
IsIncreasing [] = Unit
IsIncreasing (s ∷ ss) = Increasing s ss

-- Each text is at most the next.
abbrev Ordered : String → List String → Type 0
Ordered s [] = Unit
Ordered s (t ∷ ts) = (text_le s t ≡ true) × Ordered t ts

abbrev IsOrdered : List String → Type 0
IsOrdered [] = Unit
IsOrdered (s ∷ ss) = Ordered s ss

insert_after :
    (last s : String) (ts : List String)
    → text_le last s ≡ true
    → Ordered last ts
    → Ordered last (insert_text s ts)
unfolding insert_text
insert_after last s [] a h = (a, tt)
insert_after last s (t ∷ ts) a h = elim (Bool-cases (text_le s t)) [
  | inl e ↦ rw e (a, (e, h.1))
  | inr e ↦ rw e (h.0, insert_after t s ts (text_le_total s t e) h.1)
]

insert_text-IsOrdered :
    (s : String) (ts : List String) → IsOrdered ts → IsOrdered (insert_text s ts)
unfolding insert_text
insert_text-IsOrdered s [] h = tt
insert_text-IsOrdered s (t ∷ ts) h = elim (Bool-cases (text_le s t)) [
  | inl e ↦ rw e (e, h)
  | inr e ↦ rw e (insert_after t s ts (text_le_total s t e) h)
]

sort_strings-IsOrdered : (ss : List String) → IsOrdered (sort_strings ss)
unfolding sort_strings
sort_strings-IsOrdered [] = tt
sort_strings-IsOrdered (s ∷ ss) =
    insert_text-IsOrdered s (sort_strings ss) (sort_strings-IsOrdered ss)

unique_after-Increasing :
    (last : String) (ss : List String) → Ordered last ss → Increasing last (unique_after last ss)
unfolding unique_after
unique_after-Increasing last [] h = tt
unique_after-Increasing last (s ∷ ss) h = elim (Bool-cases (same s last)) [
  | inl e ↦
      rw e (unique_after-Increasing last ss (subst (λ x. Ordered x ss) ((same_iff s last).0 e) h.1))
  | inr e ↦
      rw e
        ((h.0, λ p. absurd (cc (e, (same_iff s last).1 (sym p)))), unique_after-Increasing s ss h.1)
]

pub unique_strings-IsIncreasing :
    (ss : List String) → IsIncreasing (unique_strings (sort_strings ss))
unfolding unique_strings
unique_strings-IsIncreasing ss = go (sort_strings ss) (sort_strings-IsOrdered ss)
  where
    go : (ts : List String) → IsOrdered ts → IsIncreasing (unique_strings ts)
    go [] h = tt
    go (t ∷ ts) h = unique_after-Increasing t ts h
