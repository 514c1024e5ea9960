-- ===== src/Domain/Currency.antt =====
-- internal/domain/currency.go
use Prim.Native.Char.{code}
use double_entry_ledger_engi.Base.{
  ◌≡◌, refl, Bool, true, false, String, len, Option, none, some, List, [], ◌∷◌, ltb, ◌==◌, ◌||◌,
  same, if◌then◌else◌,
}

pub data CurrencyError : Type 0 where
  invalid_format : String → CurrencyError
  unsupported : String → CurrencyError

-- The loop over the runes of the code.
all_upper : String → Bool
all_upper String.[] = true
all_upper (String.◌∷◌ ch s) =
    if ltb (code ch) b'A' || ltb b'Z' (code ch) then false else all_upper s

unfoldable pub is_valid : String → Bool
unfolding all_upper
is_valid c = if len c == 3 then all_upper c else false

unfoldable pub listed : List String → String → Bool
listed [] code = false
listed (s ∷ supported) code = if same s code then true else listed supported code

unfoldable pub validate_currency : String → List String → Option CurrencyError
validate_currency code supported =
    if is_valid code
    then if listed supported code then none else some (unsupported code)
    else some (invalid_format code)

usd_valid : is_valid "USD" ≡ true
unfolding is_valid
usd_valid = refl

lower_invalid : is_valid "UsD" ≡ false
unfolding is_valid
lower_invalid = refl
