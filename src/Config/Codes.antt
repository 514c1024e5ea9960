-- ===== src/Config/Codes.antt =====
-- internal/config/config.go, Validate: the supported currencies and the keys of the API.
use double_entry_ledger_engi.Domain.Currency.{is_valid}
use double_entry_ledger_engi.Base.{
  List, String, All, ◌∷◌, ◌≡◌, [], none, ◌↔◌, Bool-cases, sym, true, any, same, inl, inr, refl,
  same_iff, ◌≢◌, ◌≤◌, ◌⊎◌, len, is_empty, ℕ, false, suc, subst,
}
use mathlib.Core.List.{Memᴰ}
use native.Mathlib.Omega.{arith}
use double_entry_ledger_engi.Config.{
  check_codes, check_duplicates, validate_currencies, check_api_keys, ApiKeyConfig, AuthSettings,
  validate_auth, empty,
}
use double_entry_ledger_engi.Config.Valid.{IsPositive, IsPositive-iff, any_iff}

abbrev pub IsDistinct : List String → Type 0
IsDistinct [] = Unit
IsDistinct (c ∷ cs) = (¬ Memᴰ c cs) × IsDistinct cs

check_codes_iff : (cs : List String) → (check_codes cs ≡ none) ↔ All (λ c. is_valid c ≡ true) cs
unfolding check_codes is_valid
check_codes_iff [] = ground arith
check_codes_iff (c ∷ cs) =
    let (to, from) = check_codes_iff cs in
    ((λ h. (ground arith, to (ground arith))), (λ w. ground (arith, w.0, from w.1)))

-- Not to be a member of `c ∷ seen`.
abbrev IsNewTo : List String → List String → Type 0
IsNewTo seen cs = All (λ x. ¬ Memᴰ x seen) cs

new_iff :
    (c : String) (seen cs : List String) → IsNewTo (c ∷ seen) cs ↔ ((¬ Memᴰ c cs) × IsNewTo seen cs)
new_iff c seen [] = ((λ _. (λ m. elim m [ ], tt)), (λ _. tt))
new_iff c seen (x ∷ cs) =
    let (to, from) = new_iff c seen cs in
    (
      (λ w. (
        λ m. elim m [ Memᴰ.head e ↦ w.0 (Memᴰ.head (sym e)) | Memᴰ.tail m' ↦ (to w.1).0 m' ],
        (λ m. w.0 (Memᴰ.tail m), (to w.1).1),
      )),
      (λ w. (
        λ m. elim m [ Memᴰ.head e ↦ w.0 (Memᴰ.head (sym e)) | Memᴰ.tail m' ↦ w.1.0 m' ],
        from (λ m. w.0 (Memᴰ.tail m), w.1.1),
      )),
    )

check_duplicates_iff :
    (seen cs : List String) → (check_duplicates seen cs ≡ none) ↔ (IsNewTo seen cs × IsDistinct cs)
unfolding check_duplicates
check_duplicates_iff seen [] = ((λ _. (tt, tt)), (λ _. refl))
check_duplicates_iff seen (c ∷ cs) =
    let (to, from) = check_duplicates_iff (c ∷ seen) cs in
    let (split, unite) = new_iff c seen cs in
    elim (Bool-cases (any (same c) seen)) [
      | inl e ↦ ((λ h. absurd (ground arith)), (λ w. absurd (w.0.0 ((any_iff c seen).0 e))))
      | inr e ↦ (
        (λ h.
            let r = to (ground arith) in
            let (fresh, new) = split r.0 in
            ((λ m. ground (arith, (any_iff c seen).1 m), new), (fresh, r.1))),
        (λ w. ground (arith, from (unite (w.1.0, w.0.1), w.1.1))),
      )
    ]

all_new : (cs : List String) → IsNewTo [] cs
all_new [] = tt
all_new (c ∷ cs) = (λ m. elim m [ ], all_new cs)

pub record IsCurrencies (cs : List String) : Type 0 where
  pub some_code : cs ≢ []
  pub valid : All (λ c. is_valid c ≡ true) cs
  pub distinct : IsDistinct cs

pub validate_currencies_iff : (cs : List String) → (validate_currencies cs ≡ none) ↔ IsCurrencies cs
unfolding validate_currencies
validate_currencies_iff [] = ((λ h. absurd (ground arith)), (λ w. absurd (w.some_code refl)))
validate_currencies_iff (c ∷ cs) =
    let (to, from) = check_codes_iff (c ∷ cs) in
    let (tod, fromd) = check_duplicates_iff [] (c ∷ cs) in
    (
      (λ h. record {
        some_code = λ q. ground arith;
        valid = to (ground arith);
        distinct = (tod (ground arith)).1;
      }),
      (λ w. ground (arith, from w.valid, fromd (all_new (c ∷ cs), w.distinct))),
    )

filled : {A : Type 0} (l : List A) → l ≢ [] → is_empty l ≡ false
filled [] h = absurd (h refl)
filled (x ∷ l) h = refl

not_blank : (s : String) (n : ℕ) → suc n ≤ len s → empty s ≡ false
not_blank s n h = elim (Bool-cases (empty s)) [
  | inl e ↦ absurd (short (subst (λ t. suc n ≤ len t) ((same_iff s "").0 e) h))
  | inr e ↦ e
]
  where
    short : suc n ≤ 0 → ⊥
    short h = omega arith

-- An expiry date in the past is let through.
pub record IsApiKey (k : ApiKeyConfig) : Type 0 where
  pub long_key : 12 ≤ len k.key
  pub has_name : k.name ≢ ""
  pub has_permissions : k.permissions ≢ []

check_api_keys_iff : (ks : List ApiKeyConfig) → (check_api_keys ks ≡ none) ↔ All IsApiKey ks
unfolding check_api_keys
check_api_keys_iff [] = ((λ _. tt), (λ _. refl))
check_api_keys_iff (k ∷ ks) =
    let (to, from) = check_api_keys_iff ks in
    (
      (λ h. (
        record {
          long_key = ground arith;
          has_name = λ q. ground (arith, same_iff k.name "");
          has_permissions = λ q. ground arith;
        },
        to (ground arith),
      )),
      (λ w. ground (
        arith,
        not_blank k.key 11 w.0.long_key,
        w.0.long_key,
        same_iff k.name "",
        w.0.has_name,
        filled k.permissions w.0.has_permissions,
        from w.1,
      )),
    )

pub record IsAuth (c : AuthSettings) : Type 0 where
  pub method : (c.enable_api_key ≡ true) ⊎ (c.enable_jwt ≡ true)
  pub secret : c.enable_jwt ≡ true → 32 ≤ len c.jwt_secret
  pub expiration : IsPositive c.jwt_expiration
  pub some_key : c.enable_api_key ≡ true → c.api_keys ≢ []
  pub valid_keys : All IsApiKey c.api_keys

pub validate_auth_iff : (c : AuthSettings) → (validate_auth c ≡ none) ↔ IsAuth c
unfolding validate_auth
validate_auth_iff c =
    let (to, from) = check_api_keys_iff c.api_keys in
    (
      (λ h. record {
        method = ground arith;
        secret = λ q. ground arith;
        expiration = (IsPositive-iff c.jwt_expiration).0 (ground arith);
        some_key = λ q r. ground arith;
        valid_keys = to (ground arith);
      }),
      (λ w. ground (
        arith,
        not_blank c.jwt_secret 31,
        (IsPositive-iff c.jwt_expiration).1 w.expiration,
        filled c.api_keys,
        from w.valid_keys,
      )),
    )
