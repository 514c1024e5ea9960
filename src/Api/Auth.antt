-- ===== src/Api/Auth.antt =====
-- internal/api/middleware/auth.go: who calls, and what a caller may do. Time is read once for a
-- request. The JWT package is the parameter `Jwt`; maps are lists of pairs.
pub mod Callers
pub mod Guarded
use double_entry_ledger_engi.Api.Errors.{
  new_api_error, internal_error, invalid_credentials, forbidden, unauthorized,
}
use double_entry_ledger_engi.Api.Texts.{trim_space, has_part, after_prefix, join}
use double_entry_ledger_engi.Api.Response.{Sent, send_error_response}
use double_entry_ledger_engi.Base.{
  Bool, List, Option, Result, String, ℕ, any, err, false, if◌then◌else◌, ok, some, is_some, ltb,
  none, same, true, ◌&&◌, ◌∷◌, [], ◌||◌, ℤ,
}

pub record ApiKeyInfo : Type 0 where
  pub name : String
  pub permissions : List (String × Bool)
  pub created_at : ℕ
  pub expires_at : Option ℕ
  pub metadata : List (String × String)

pub record AuthConfig : Type 0 where
  pub api_keys : List (String × ApiKeyInfo)
  pub jwt_secret : String
  pub jwt_expiration : ℤ
  pub enable_api_key : Bool
  pub enable_jwt : Bool

pub record AuthContext : Type 0 where
  pub caller_id : String
  pub caller_type : String
  pub permissions : List (String × Bool)
  pub metadata : List (String × String)
  pub authenticated_at : ℕ

-- JWTClaims with the `exp` of its registered claims
pub record JwtClaims : Type 0 where
  pub caller_id : String
  pub permissions : List (String × Bool)
  pub metadata : List (String × String)
  pub expires_at : Option ℕ

-- jwt.ParseWithClaims asks for the key of a token before it verifies it; it answers with the claims
-- and with `Valid`.
pub record Jwt (Token : Type 0) : Type 0 where
  pub is_hmac : Token → Bool
  pub parse_with_claims : String → (Token → Option String) → Option (JwtClaims × Bool)

pub record Request : Type 0 where
  pub method : String
  -- the route that matches, "" where none does
  pub full_path : String
  pub url_path : String
  pub api_key : String
  pub authorization : String
  pub request_id : Option String

-- map[string]bool: a missing key is false
unfoldable pub permitted : String → List (String × Bool) → Bool
permitted p [] = false
permitted p ((key, b) ∷ rest) = if same key p then b else permitted p rest

unfoldable pub expired : ℕ → Option ℕ → Bool
expired time none = false
expired time (some end) = ltb end time

abbrev pub key_context : ℕ → ApiKeyInfo → AuthContext
key_context time info = record {
  caller_id = info.name;
  caller_type = "api_key";
  permissions = info.permissions;
  metadata = info.metadata;
  authenticated_at = time;
}

-- The loop over the keys; the errors are texts.
unfoldable pub authenticate_api_key :
    ℕ → String → List (String × ApiKeyInfo) → Result String AuthContext
unfolding expired
authenticate_api_key time token [] = err "invalid API key"
authenticate_api_key time token ((key, info) ∷ keys) =
    if same token key
    then if expired time info.expires_at then err "API key expired" else ok (key_context time info)
    else authenticate_api_key time token keys

abbrev pub jwt_context : ℕ → JwtClaims → AuthContext
jwt_context time claims = record {
  caller_id = claims.caller_id;
  caller_type = "jwt";
  permissions = claims.permissions;
  metadata = claims.metadata;
  authenticated_at = time;
}

unfoldable pub check_claims : ℕ → Option (JwtClaims × Bool) → Result String AuthContext
unfolding expired
check_claims time none = err "invalid JWT token"
check_claims time (some (claims, false)) = err "invalid JWT claims"
check_claims time (some (claims, true)) =
    if expired time claims.expires_at then err "JWT token expired" else ok (jwt_context time claims)

-- strings.HasPrefix(path, "/docs") and the listed paths
unfoldable pub is_health_endpoint : String → Bool
is_health_endpoint path =
    any (same path)
      ("/health" ∷ "/metrics" ∷ "/livez" ∷ "/readyz" ∷ "/v1/system/info" ∷ "/openapi.yaml" ∷ [])
    || is_some (after_prefix "/docs" path)

unfoldable pub route_path : Request → String
route_path req = if same req.full_path "" then req.url_path else req.full_path

-- The switch on the method for transactions; `none` falls through to the accounts.
unfoldable pub transaction_permission : String → String → Option String
transaction_permission method path =
    if same method "POST"
    then if has_part path "/settle"
      then some "transaction:settle"
      else if has_part path "/cancel"
      then some "transaction:cancel"
      else if has_part path "/reverse"
      then some "transaction:reverse"
      else some "transaction:post"
    else if same method "GET"
    then some "transaction:read"
    else none

unfoldable pub account_permission : String → String → String
account_permission method path =
    if has_part path "/balances"
    then "balance:read"
    else if same method "POST"
    then "account:create"
    else if same method "GET"
    then "account:read"
    else if same method "PATCH"
    then "account:update"
    else ""

abbrev or_accounts : String → String → Option String → String
or_accounts method path (some permission) = permission
or_accounts method path none =
    if is_some (after_prefix "/v1/accounts" path) then account_permission method path else ""

-- "" where no permission is required
unfoldable pub get_required_permission : String → String → String
unfolding transaction_permission account_permission
get_required_permission method path = or_accounts method path (
    if is_some (after_prefix "/v1/transactions" path)
    then transaction_permission method path
    else none)

-- What a middleware does with a request.
pub data Step : Type 0 where
  abort : Sent → Step
  next_with : Option AuthContext → Step

module _ {Token : Type 0} (jwt : Jwt Token) where
  -- The key function refuses a signing method that is not HMAC.
  unfoldable pub authenticate_jwt : ℕ → String → String → Result String AuthContext
  unfolding check_claims
  authenticate_jwt time token secret =
      check_claims time
        (jwt.parse_with_claims token (λ t. if jwt.is_hmac t then some secret else none))

  abbrev pub bearer : ℕ → AuthConfig → Option String → Result String AuthContext
  bearer time config none = err "unsupported authentication scheme"
  bearer time config (some rest) =
      if config.enable_jwt
      then if same (trim_space rest) ""
        then err "empty bearer token"
        else authenticate_jwt time (trim_space rest) config.jwt_secret
      else err "JWT authentication is disabled"

  -- The switch on the headers, already trimmed.
  unfoldable pub credentials : ℕ → AuthConfig → String → String → Result String AuthContext
  unfolding authenticate_jwt authenticate_api_key
  credentials time config api_key authorization =
      if same api_key ""
      then bearer time config (after_prefix "Bearer " authorization)
      else if config.enable_api_key
      then authenticate_api_key time api_key config.api_keys
      else err "API key authentication is disabled"

  abbrev pub admit : Request → Result String AuthContext → Step
  admit req (ok context) = next_with (some context)
  admit req (err e) = abort (
      send_error_response req.request_id
        (new_api_error invalid_credentials "Invalid authentication credentials"))

  unfoldable pub authentication : ℕ → AuthConfig → Request → Step
  authentication time config req =
      let api_key = trim_space req.api_key in
      let authorization = trim_space req.authorization in
      if is_health_endpoint (route_path req)
      then next_with none
      else if same api_key "" && same authorization ""
      then abort (
          send_error_response req.request_id
            (new_api_error unauthorized "authentication credentials are required"))
      else admit req (credentials time config api_key authorization)

unfoldable pub authorize : Request → String → Option AuthContext → Step
authorize req permission none = abort (
    send_error_response req.request_id
      (new_api_error internal_error "Authentication context not found"))
authorize req permission (some context) =
    if same permission ""
    then next_with (some context)
    else if permitted permission context.permissions
    then next_with (some context)
    else abort (
        send_error_response req.request_id
          (new_api_error forbidden (join "Insufficient permissions. Required: " permission)))

unfoldable pub authorization : Request → Option AuthContext → Step
authorization req context =
    if is_health_endpoint (route_path req)
    then next_with context
    else authorize req (get_required_permission req.method (route_path req)) context

abbrev pub then_authorize : Request → Step → Step
then_authorize req (abort s) = abort s
then_authorize req (next_with context) = authorization req context

-- The two in the order of setupMiddleware of internal/api/router.go.
unfoldable pub guard_request : {Token : Type 0} → Jwt Token → ℕ → AuthConfig → Request → Step
guard_request jwt time config req = then_authorize req (authentication jwt time config req)
