-- ===== src/Base/Results.antt =====
-- A Go function that returns `(T, error)`, and one that also changes state.

pub data Result (E A : Type 0) : Type 0 where
  ok : A → Result E A
  err : E → Result E A

-- `S` is what the call may change; it comes back after an error too.
abbrev pub Action : Type 0 → Type 0 → Type 0 → Type 0
Action S E A = S → Result E A × S

module _ {S E A : Type 0} where
  unfoldable pub pure : A → Action S E A
  pure a s = (ok a, s)

  unfoldable pub raise : E → Action S E A
  raise e s = (err e, s)

  unfoldable pub lift : Result E A → Action S E A
  lift r s = (r, s)

-- What follows a call, given how the call went.
abbrev pub next : {S E A B : Type 0} → (A → Action S E B) → Result E A × S → Result E B × S
next f (ok a, t) = f a t
next f (err e, t) = (err e, t)

infixl 5 ◌>>=◌ ◌>>◌
unfoldable pub ◌>>=◌ : {S E A B : Type 0} → Action S E A → (A → Action S E B) → Action S E B
◌>>=◌ m f s = next f (m s)

abbrev pub ◌>>◌ : {S E A B : Type 0} → Action S E A → Action S E B → Action S E B
m >> k = m >>= λ _. k

unfoldable pub map_err : {S E F A : Type 0} → (E → F) → Action S E A → Action S F A
map_err g m s = let (r, t) = m s in (elim r [ ok a ↦ ok a | err e ↦ err (g e) ], t)
