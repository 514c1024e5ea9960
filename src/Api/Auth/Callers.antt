-- ===== src/Api/Auth/Callers.antt =====
-- The callers that the authentication of internal/api/middleware/auth.go accepts.
use text.Mathlib.TextLemmas.{cons-ne-nil}
use double_entry_ledger_engi.Api.Texts.{trim_space, after_prefix}
use double_entry_ledger_engi.Api.Auth.{
  Jwt, ApiKeyInfo, AuthConfig, AuthContext, Request, authenticate_api_key, check_claims, JwtClaims,
  get_required_permission, route_path, permitted, expired, jwt_context, key_context, credentials,
  authenticate_jwt, bearer,
}
use double_entry_ledger_engi.Base.{
  [], String, List, ℕ, Option, none, same, ◌≡◌, Bool, false, ok, true, ◌⊎◌, some, if◌then◌else◌,
  Bool-cases, inl, arith, inr, refl, ◌∷◌, subst, sym, ◌&&◌, same_iff,
}

abbrev find_key : String → List (String × ApiKeyInfo) → Option ApiKeyInfo
find_key token [] = none
find_key token ((key, info) ∷ keys) = if same token key then some info else find_key token keys

bearer_given :
    (header rest : String) → after_prefix "Bearer " header ≡ some rest → same header "" ≡ false
unfolding after_prefix
bearer_given String.[] rest h = absurd cc
bearer_given (String.◌∷◌ c s) rest h = elim (Bool-cases (same (String.◌∷◌ c s) "")) [
  | inl y ↦ absurd (cons-ne-nil c s ((same_iff (String.◌∷◌ c s) "").0 y))
  | inr n ↦ n
]

module _ {Token : Type 0} (jwt : Jwt Token) (time : ℕ) (config : AuthConfig) where
  -- The caller of an API key that is listed and not expired.
  abbrev pub IsKeyCaller : String → AuthContext → Type 0
  IsKeyCaller token context =
      (same token "" ≡ false)
      × (config.enable_api_key ≡ true)
      × (info : ApiKeyInfo) × (find_key token config.api_keys ≡ some info)
      × (expired time info.expires_at ≡ false)
      × (context ≡ key_context time info)

  -- The caller of a bearer token that the JWT package accepts with the secret, and not expired.
  abbrev pub IsTokenCaller : String → String → AuthContext → Type 0
  IsTokenCaller token header context =
      (same token "" ≡ true)
      × (config.enable_jwt ≡ true)
      × (rest : String) × (after_prefix "Bearer " header ≡ some rest)
      × (same (trim_space rest) "" ≡ false)
      × (claims : JwtClaims) × (jwt.parse_with_claims (trim_space rest)
            (λ t. if jwt.is_hmac t then some config.jwt_secret else none)
          ≡ some (claims, true))
      × (expired time claims.expires_at ≡ false)
      × (context ≡ jwt_context time claims)

  abbrev pub IsCaller : Request → AuthContext → Type 0
  IsCaller req context =
      IsKeyCaller (trim_space req.api_key) context
      ⊎ IsTokenCaller (trim_space req.api_key) (trim_space req.authorization) context

  -- The route needs no permission, or the caller has it.
  abbrev pub MayCall : Request → AuthContext → Type 0
  MayCall req context =
      (get_required_permission req.method (route_path req) ≡ "")
      ⊎ (permitted (get_required_permission req.method (route_path req)) context.permissions ≡ true)

  key_ok :
      (token : String) (keys : List (String × ApiKeyInfo)) (context : AuthContext)
      → authenticate_api_key time token keys ≡ ok context
      → (info : ApiKeyInfo) × (find_key token keys ≡ some info)
        × (expired time info.expires_at ≡ false)
        × (context ≡ key_context time info)
  unfolding authenticate_api_key
  key_ok token [] context h = absurd cc
  key_ok token ((key, info) ∷ keys) context h = elim (Bool-cases (same token key)) [
    | inl y ↦ elim (Bool-cases (expired time info.expires_at)) [
      | inl late ↦ absurd (ground arith)
      | inr n ↦ (info, rw y refl, n, ground arith)
    ]
    | inr n ↦
        let (found, found_is, valid, e) = key_ok token keys context (ground arith) in
        (found, rw n found_is, valid, e)
  ]

  claims_ok :
      (o : Option (JwtClaims × Bool)) (context : AuthContext)
      → check_claims time o ≡ ok context
      → (claims : JwtClaims) × (o ≡ some (claims, true))
        × (expired time claims.expires_at ≡ false)
        × (context ≡ jwt_context time claims)
  unfolding check_claims
  claims_ok none context h = absurd cc
  claims_ok (some (claims, false)) context h = absurd cc
  claims_ok (some (claims, true)) context h = elim (Bool-cases (expired time claims.expires_at)) [
    | inl y ↦ absurd (ground arith)
    | inr n ↦ (claims, refl, n, ground arith)
  ]

  key_granted :
      (token : String) (keys : List (String × ApiKeyInfo)) (info : ApiKeyInfo)
      → find_key token keys ≡ some info
      → expired time info.expires_at ≡ false
      → authenticate_api_key time token keys ≡ ok (key_context time info)
  unfolding authenticate_api_key
  key_granted token [] info found valid = absurd cc
  key_granted token ((key, other) ∷ keys) info found valid = elim (Bool-cases (same token key)) [
    | inl y ↦
        let e : other ≡ info = ground arith in
        subst (λ i. authenticate_api_key time token ((key, i) ∷ keys) ≡ ok (key_context time info))
          (sym e) (rw (y, valid) refl)
    | inr n ↦ rw n (key_granted token keys info (ground arith) valid)
  ]

  bearer_ok :
      (rest : Option String) (context : AuthContext)
      → bearer jwt time config rest ≡ ok context
      → (config.enable_jwt ≡ true)
        × (text : String) × (rest ≡ some text)
        × (same (trim_space text) "" ≡ false)
        × (authenticate_jwt jwt time (trim_space text) config.jwt_secret ≡ ok context)
  bearer_ok none context h = absurd cc
  bearer_ok (some text) context h = elim (Bool-cases config.enable_jwt) [
    | inl y ↦ elim (Bool-cases (same (trim_space text) "")) [
      | inl empty ↦ absurd (ground arith)
      | inr n ↦ (y, text, refl, n, ground arith)
    ]
    | inr n ↦ absurd (ground arith)
  ]

  token_ok :
      (token header : String) (context : AuthContext)
      → same token "" ≡ true
      → bearer jwt time config (after_prefix "Bearer " header) ≡ ok context
      → IsTokenCaller token header context
  unfolding authenticate_jwt
  token_ok token header context empty h =
      let (enabled, text, found, given, accepted) =
        bearer_ok (after_prefix "Bearer " header) context h in
      let (claims, parsed, valid, e) = claims_ok _ context accepted in
      (empty, enabled, text, found, given, claims, parsed, valid, e)

  pub credentials_ok :
      (token header : String) (context : AuthContext)
      → credentials jwt time config token header ≡ ok context
      → IsKeyCaller token context ⊎ IsTokenCaller token header context
  unfolding credentials authenticate_jwt
  credentials_ok token header context h = elim (Bool-cases (same token "")) [
    | inl empty ↦ inr (token_ok token header context empty (ground arith))
    | inr given ↦ elim (Bool-cases config.enable_api_key) [
      | inl y ↦
          let (info, found, valid, e) = key_ok token config.api_keys context (ground arith) in
          inl (given, y, info, found, valid, e)
      | inr n ↦ absurd (ground arith)
    ]
  ]

  pub credentials_granted :
      (token header : String) (context : AuthContext)
      → IsKeyCaller token context ⊎ IsTokenCaller token header context
      → (credentials jwt time config token header ≡ ok context)
        × ((same token "" && same header "") ≡ false)
  unfolding credentials authenticate_jwt check_claims
  credentials_granted token header context (inl (given, enabled, info, found, valid, e)) =
      (rw (given, enabled, e) (key_granted token config.api_keys info found valid), rw given refl)
  credentials_granted token header context
        (inr (empty, enabled, rest, found, given, claims, parsed, valid, e)) =
      (
        rw (empty, enabled, e, found, given, parsed, valid) refl,
        rw empty (bearer_given header rest found),
      )
