-- ===== src/Api/Texts.antt =====
-- What internal/api and internal/config use of the packages strings and strconv. Case is that of ASCII
-- letters, blanks are those of ASCII.
use double_entry_ledger_engi.Base.{
  Option, String, map, ℕ, ◌≡◌, Bool, List, any, if◌then◌else◌, none, some, true, ℤ, ◌∷◌, [], false,
  is_some, leb, ltb, negsuc, not, pos, refl, same, ◌&&◌, ◌*◌, ◌==◌, ◌||◌, suc, ◌+◌, ◌^◌, zero, ◌-◌,
}
use Prim.Native.Char.{code}
use Prim.Native.String

abbrev pub join : String → String → String
join s t = String.◌++◌ s t

abbrev lower : ℕ → ℕ
lower c = if leb b'A' c && leb c b'Z' then c + 32 else c

-- Does the text begin with the lower-case `pattern`, whatever its case?
begins_lower : String → String → Bool
begins_lower String.[] s = true
begins_lower (String.◌∷◌ p pattern) String.[] = false
begins_lower (String.◌∷◌ p pattern) (String.◌∷◌ c s) =
    code p == lower (code c) && begins_lower pattern s

-- strings.Contains(strings.ToLower(s), pattern)
unfoldable pub lower_contains : String → String → Bool
unfolding begins_lower
lower_contains String.[] pattern = begins_lower pattern ""
lower_contains (String.◌∷◌ c s) pattern =
    begins_lower pattern (String.◌∷◌ c s) || lower_contains s pattern

-- strings.ToLower(s) == word, of a lower-case word
unfoldable pub equal_lower : String → String → Bool
equal_lower String.[] String.[] = true
equal_lower String.[] (String.◌∷◌ c s) = false
equal_lower (String.◌∷◌ p word) String.[] = false
equal_lower (String.◌∷◌ p word) (String.◌∷◌ c s) = code p == lower (code c) && equal_lower word s

abbrev any_code : (ℕ → Bool) → String → Bool
any_code p String.[] = false
any_code p (String.◌∷◌ c s) = p (code c) || any_code p s

abbrev pub has_dash : String → Bool
has_dash = any_code (λ c. c == b'-')

-- strings.ToUpper(s) == s
abbrev pub is_upper : String → Bool
is_upper s = not (any_code (λ c. leb b'a' c && leb c b'z') s)

abbrev is_blank : ℕ → Bool
is_blank c = c == 32 || (leb 9 c && leb c 13)

abbrev is_blank_text : String → Bool
is_blank_text s = same s ""

abbrev add_word : String → List String → List String
add_word w ws = if is_blank_text w then ws else w ∷ ws

-- The word that the text begins with, and the words after it.
split_words : String → String × List String
split_words String.[] = ("", [])
split_words (String.◌∷◌ c s) =
    let rest = split_words s in
    if is_blank (code c) then ("", add_word rest.0 rest.1) else (String.◌∷◌ c rest.0, rest.1)

-- strings.Fields
unfoldable pub fields : String → List String
unfolding split_words
fields s = let words = split_words s in add_word words.0 words.1

-- strings.TrimLeft and strings.TrimRight of the characters that `p` takes
trim_left : (ℕ → Bool) → String → String
trim_left p String.[] = ""
trim_left p (String.◌∷◌ c s) =
    let rest = trim_left p s in if p (code c) then rest else String.◌∷◌ c s

trim_right : (ℕ → Bool) → String → String
trim_right p String.[] = ""
trim_right p (String.◌∷◌ c s) =
    let rest = trim_right p s in if is_blank_text rest && p (code c) then "" else String.◌∷◌ c rest

-- strings.Trim(s, ",:;.()")
unfoldable pub trim_marks : String → String
unfolding trim_left trim_right
trim_marks s =
    let mark = λ (c : ℕ). any (λ m. c == m) (b',' ∷ b':' ∷ b';' ∷ b'.' ∷ b'(' ∷ b')' ∷ []) in
    trim_right mark (trim_left mark s)

-- strings.TrimSpace
unfoldable pub trim_space : String → String
unfolding trim_left trim_right
trim_space s = trim_right is_blank (trim_left is_blank s)

-- strings.HasPrefix, with what strings.TrimPrefix leaves
unfoldable pub after_prefix : String → String → Option String
after_prefix String.[] s = some s
after_prefix (String.◌∷◌ p prefix) String.[] = none
after_prefix (String.◌∷◌ p prefix) (String.◌∷◌ c s) =
    if code p == code c then after_prefix prefix s else none

-- strings.Contains
unfoldable pub has_part : String → String → Bool
unfolding after_prefix
has_part String.[] part = is_some (after_prefix part "")
has_part (String.◌∷◌ c s) part = is_some (after_prefix part (String.◌∷◌ c s)) || has_part s part

abbrev is_digit : ℕ → Bool
is_digit c = leb b'0' c && leb c b'9'

-- The number that the digits continue from `acc`.
digits_from : ℕ → String → Option ℕ
digits_from acc String.[] = some acc
digits_from acc (String.◌∷◌ c s) =
    let rest = digits_from (acc * 10 + (code c - b'0')) s in
    if is_digit (code c) then rest else none

digits : String → Option ℕ
unfolding digits_from
digits String.[] = none
digits (String.◌∷◌ c s) = digits_from 0 (String.◌∷◌ c s)

abbrev below_limit : Option ℕ → Option ℤ
below_limit none = none
below_limit (some n) = if ltb n (2 ^ 63) then some (pos n) else none

abbrev negated : Option ℕ → Option ℤ
negated none = none
negated (some zero) = some (pos 0)
negated (some (suc n)) = if ltb n (2 ^ 63) then some (negsuc n) else none

-- strconv.Atoi, of a 64-bit int; the error is dropped by its callers
unfoldable pub atoi : String → Option ℤ
unfolding digits
atoi String.[] = none
atoi (String.◌∷◌ c s) =
    if code c == b'-'
    then negated (digits s)
    else if code c == b'+'
    then below_limit (digits s)
    else below_limit (digits (String.◌∷◌ c s))

atoi_test : (atoi "-12" ≡ some (negsuc 11)) × (atoi "1000" ≡ some (pos 1000)) × (atoi "1x" ≡ none)
unfolding atoi
atoi_test = (refl, refl, refl)

contains_test : lower_contains "Original Transaction not found" "transaction not found" ≡ true
unfolding lower_contains
contains_test = refl

fields_test : map trim_marks (fields "currency (USD), x ") ≡ "currency" ∷ "USD" ∷ "x" ∷ []
unfolding fields trim_marks
fields_test = refl
