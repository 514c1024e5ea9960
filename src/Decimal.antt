-- ===== src/Decimal.antt =====
-- github.com/shopspring/decimal, the amounts of the ledger. The package is not part of the
-- repository: its type and the operations that the code calls are the interface `Decimal`, and
-- `DecimalLaws` states what the package documents of them, through the number a decimal stands
-- for. Two decimals may stand for one number (1.5 and 1.50), so `equal` is not identity.
pub mod Group
use double_entry_ledger_engi.Base.{ℕ, ◌≡◌, ◌↔◌, Bool, true, false}

-- An int32 exponent: the number is coefficient * 10 ^ exponent. `below n` is -(n + 1).
pub data Exponent : Type 0 where
  nonneg : ℕ → Exponent
  below : ℕ → Exponent

pub record Decimal (D : Type 0) : Type 0 where
  pub zero : D
  pub add : D → D → D
  pub sub : D → D → D
  pub abs : D → D
  pub equal : D → D → Bool
  pub is_negative : D → Bool
  pub exponent : D → Exponent

pub record DecimalLaws (D : Type 0) (dec : Decimal D) : Type 1 where
  pub Number : Type 0
  pub value : D → Number
  pub nil : Number
  pub plus : Number → Number → Number
  pub negate : Number → Number
  pub plus_assoc : (a b c : Number) → plus (plus a b) c ≡ plus a (plus b c)
  pub plus_comm : (a b : Number) → plus a b ≡ plus b a
  pub plus-nil : (a : Number) → plus a nil ≡ a
  pub plus-negate : (a : Number) → plus a (negate a) ≡ nil
  pub value-zero : value dec.zero ≡ nil
  pub value-add : (a b : D) → value (dec.add a b) ≡ plus (value a) (value b)
  pub value-sub : (a b : D) → value (dec.sub a b) ≡ plus (value a) (negate (value b))
  pub equal_iff : (a b : D) → (dec.equal a b ≡ true) ↔ (value a ≡ value b)
  pub Nonneg : Number → Type 0
  pub nonneg_iff : (a : D) → (dec.is_negative a ≡ false) ↔ Nonneg (value a)
  pub nonneg-plus : (a b : Number) → Nonneg a → Nonneg b → Nonneg (plus a b)
