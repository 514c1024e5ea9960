-- ===== src/Tests/Guards.antt =====
-- The theorems on the authentication of requests at a concrete key and route.
use double_entry_ledger_engi.Base.{
  Option, String, none, true, ℕ, ◌∷◌, ◌≡◌, [], false, some, ◌↔◌, refl, ◌⊎◌, Result, List,
  if◌then◌else◌, ok, err, same, ◌≢◌,
}
use mathlib.Core.List.{Memᴰ}
use double_entry_ledger_engi.Base
use double_entry_ledger_engi.Config.{AuthSettings}
use double_entry_ledger_engi.Api.Router.{
  build_auth_config, ledger_routes, ledger_routes-guarded, is_meant,
}
use double_entry_ledger_engi.Api.Auth.{
  authentication, credentials, authorization, authorize, get_required_permission, permitted,
}
use double_entry_ledger_engi.Api.Texts.{after_prefix, trim_space}
use double_entry_ledger_engi.Tests.Amounts.{amount_decimal}
use double_entry_ledger_engi.Api.Auth.{
  Jwt, AuthConfig, AuthContext, ApiKeyInfo, Request, guard_request, next_with, is_health_endpoint,
  route_path, key_context,
}
use double_entry_ledger_engi.Api.Auth.Callers.{IsCaller, MayCall}
use double_entry_ledger_engi.Api.Auth.Guarded.{guard_request_iff}

-- No token is valid.
abbrev no_jwt : Jwt ℕ
no_jwt = record { is_hmac = λ t. false; parse_with_claims = λ s f. none }

-- A key that may read transactions until the time 50.
abbrev reader : ApiKeyInfo
reader = record {
  name = "reader";
  permissions = ("transaction:read", true) ∷ [];
  created_at = 0;
  expires_at = some 50;
  metadata = [];
}

abbrev auth_config : AuthConfig
auth_config = record {
  api_keys = ("reader-key-01", reader) ∷ [];
  jwt_secret = "";
  jwt_expiration = Base.pos 0;
  enable_api_key = true;
  enable_jwt = false;
}

abbrev read_request : Request
read_request = record {
  method = "GET";
  full_path = "/v1/transactions/:id";
  url_path = "/v1/transactions/7";
  api_key = " reader-key-01";
  authorization = "";
  request_id = none;
}

guard_request_iff_example :
    ((step : Option AuthContext) × (guard_request no_jwt 20 auth_config read_request
        ≡ next_with step))
    ↔ ((is_health_endpoint (route_path read_request) ≡ true)
        ⊎ ((context : AuthContext) × IsCaller no_jwt 20 auth_config read_request context
            × MayCall no_jwt 20 auth_config read_request context))
guard_request_iff_example = guard_request_iff no_jwt 20 auth_config read_request

-- The key passes.
passes :
    (guard_request no_jwt 20 auth_config read_request ≡ next_with (some (key_context 20 reader)))
unfolding guard_request authentication is_health_endpoint route_path after_prefix trim_space
    credentials authorization authorize get_required_permission permitted
passes = refl

abbrev auth_settings : AuthSettings
auth_settings = record {
  enable_api_key = true;
  enable_jwt = false;
  jwt_secret = "";
  jwt_expiration = Base.pos 0;
  api_keys =
      record {
        key = "reader-key-01";
        name = "reader";
        permissions = "transaction:read" ∷ [];
        expires_at = some 50;
        metadata = [];
      }
      ∷ [];
}

read_passes :
    guard_request no_jwt 20 (build_auth_config 20 auth_settings) read_request
    ≡ next_with (some (key_context 20 reader))
unfolding guard_request authentication is_health_endpoint route_path after_prefix trim_space
    credentials authorization authorize get_required_permission permitted build_auth_config
read_passes = refl

ledger_routes-guarded_example :
    (context : AuthContext) × IsCaller no_jwt 20
      (build_auth_config 20 auth_settings)
      read_request
      context
    × (permitted (get_required_permission "GET" "/v1/transactions/:id") context.permissions ≡ true)
    × (get_required_permission "GET" "/v1/transactions/:id" ≢ "")
    × (is_meant "GET" "/v1/transactions/:id" (get_required_permission "GET" "/v1/transactions/:id")
        ≡ true)
unfolding ledger_routes
ledger_routes-guarded_example =
    ledger_routes-guarded no_jwt 20 auth_settings read_request (some (key_context 20 reader))
      (Memᴰ.tail (Memᴰ.tail (Memᴰ.head refl))) read_passes
