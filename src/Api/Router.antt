-- ===== src/Api/Router.antt =====
-- internal/api/router.go: the routes of transactions, accounts and balances with the methods of the
-- requests, and the settings of the authentication.
use double_entry_ledger_engi.Base.{
  Bool, List, String, ℕ, ◌≡◌, Option, [], not, true, ◌∷◌, if◌then◌else◌, refl, same, subst, ◌≢◌,
  inl, sym, ◌&&◌, inr, false, same_iff, any,
}
use mathlib.Core.List.{Memᴰ}
use native.Mathlib.Omega.{arith}
use double_entry_ledger_engi.Config.{ApiKeyConfig, AuthSettings}
use double_entry_ledger_engi.Query.{all}
use double_entry_ledger_engi.Api.Auth.{
  ApiKeyInfo, AuthConfig, AuthContext, Request, Jwt, next_with, guard_request,
  get_required_permission, is_health_endpoint, route_path, permitted,
}
use double_entry_ledger_engi.Api.Auth.Callers.{IsCaller}
use double_entry_ledger_engi.Api.Auth.Guarded.{guard_request_iff}
use double_entry_ledger_engi.Api.Texts.{after_prefix, has_part}

-- A map: `m[key] = value`
abbrev put : {V : Type 0} → String → V → List (String × V) → List (String × V)
put key value [] = (key, value) ∷ []
put key value ((k, v) ∷ rest) =
    if same k key then (k, value) ∷ rest else (k, v) ∷ put key value rest

abbrev permission_map : List String → List (String × Bool) → List (String × Bool)
permission_map [] permissions = permissions
permission_map (p ∷ ps) permissions = permission_map ps (put p true permissions)

abbrev key_info : ℕ → ApiKeyConfig → ApiKeyInfo
key_info time k = record {
  name = k.name;
  permissions = permission_map k.permissions [];
  created_at = time;
  expires_at = k.expires_at;
  metadata = k.metadata;
}

abbrev key_map : ℕ → List ApiKeyConfig → List (String × ApiKeyInfo) → List (String × ApiKeyInfo)
key_map time [] keys = keys
key_map time (k ∷ ks) keys = key_map time ks (put k.key (key_info time k) keys)

unfoldable pub build_auth_config : ℕ → AuthSettings → AuthConfig
build_auth_config time c = record {
  api_keys = key_map time c.api_keys [];
  jwt_secret = c.jwt_secret;
  jwt_expiration = c.jwt_expiration;
  enable_api_key = c.enable_api_key;
  enable_jwt = c.enable_jwt;
}

-- The routes of the group /v1 but /v1/system/info.
unfoldable pub ledger_routes : List (String × String)
ledger_routes =
    ("POST", "/v1/transactions")
    ∷ ("POST", "/v1/transactions/batch")
    ∷ ("GET", "/v1/transactions/:id")
    ∷ ("POST", "/v1/transactions/:id/settle")
    ∷ ("POST", "/v1/transactions/:id/cancel")
    ∷ ("POST", "/v1/transactions/:id/reverse")
    ∷ ("GET", "/v1/transactions")
    ∷ ("POST", "/v1/accounts")
    ∷ ("GET", "/v1/accounts/:id")
    ∷ ("GET", "/v1/accounts")
    ∷ ("PATCH", "/v1/accounts/:id/metadata")
    ∷ ("GET", "/v1/accounts/:id/balances")
    ∷ ("GET", "/v1/accounts/:id/balances/:currency")
    ∷ ("GET", "/v1/accounts/:id/balances/:currency/history")
    ∷ []

needs_permission : String × String → Bool
needs_permission (method, path) =
    not (same path "")
    && not (is_health_endpoint path)
    && not (same (get_required_permission method path) "")

all-Memᴰ :
    {A : Type 0} (p : A → Bool) (xs : List A) (x : A) → all p xs ≡ true → Memᴰ x xs → p x ≡ true
all-Memᴰ p [] x h m = elim m [ ]
all-Memᴰ p (y ∷ xs) x h (Memᴰ.head e) = subst (λ z. p z ≡ true) (sym e) (ground (arith, h))
all-Memᴰ p (y ∷ xs) x h (Memᴰ.tail m) = all-Memᴰ p xs x (ground (arith, h)) m

all_need_permission : all needs_permission ledger_routes ≡ true
unfolding needs_permission ledger_routes is_health_endpoint after_prefix get_required_permission
    has_part
all_need_permission = refl

needed :
    (method path : String)
    → needs_permission (method, path) ≡ true
    → (same path "" ≡ false)
      × (is_health_endpoint path ≡ false)
      × (same (get_required_permission method path) "" ≡ false)
unfolding needs_permission
needed method path h = (ground arith, ground arith, ground arith)

matched_path : (req : Request) → same req.full_path "" ≡ false → route_path req ≡ req.full_path
unfolding route_path
matched_path req h = rw h refl

-- The permission that each route is meant to require.
abbrev pub route_permissions : List (String × String × String)
route_permissions =
    ("POST", "/v1/transactions", "transaction:post")
    ∷ ("POST", "/v1/transactions/batch", "transaction:post")
    ∷ ("GET", "/v1/transactions/:id", "transaction:read")
    ∷ ("POST", "/v1/transactions/:id/settle", "transaction:settle")
    ∷ ("POST", "/v1/transactions/:id/cancel", "transaction:cancel")
    ∷ ("POST", "/v1/transactions/:id/reverse", "transaction:reverse")
    ∷ ("GET", "/v1/transactions", "transaction:read")
    ∷ ("POST", "/v1/accounts", "account:create")
    ∷ ("GET", "/v1/accounts/:id", "account:read")
    ∷ ("GET", "/v1/accounts", "account:read")
    ∷ ("PATCH", "/v1/accounts/:id/metadata", "account:update")
    ∷ ("GET", "/v1/accounts/:id/balances", "balance:read")
    ∷ ("GET", "/v1/accounts/:id/balances/:currency", "balance:read")
    ∷ ("GET", "/v1/accounts/:id/balances/:currency/history", "balance:read")
    ∷ []

-- The table has the permission for the method and the path.
abbrev pub is_meant : String → String → String → Bool
is_meant method path permission =
    any (λ r. same r.0 method && same r.1 path && same r.2 permission) route_permissions

required_is_meant : String × String → Bool
required_is_meant (method, path) = is_meant method path (get_required_permission method path)

all_meant : all required_is_meant ledger_routes ≡ true
unfolding required_is_meant ledger_routes after_prefix get_required_permission has_part
all_meant = refl

route_is_meant :
    (method path : String)
    → Memᴰ (method, path) ledger_routes
    → is_meant method path (get_required_permission method path) ≡ true
unfolding required_is_meant
route_is_meant method path route = all-Memᴰ required_is_meant ledger_routes _ all_meant route

module _ {Token : Type 0} (jwt : Jwt Token) (time : ℕ) (c : AuthSettings) where
  -- A request for one of the routes of transactions, accounts and balances passes the middlewares of
  -- the router only if its caller is authenticated by a key or a token of the settings and has the
  -- permission that the route requires: there is one, and it is that of the table.
  pub ledger_routes-guarded :
      (req : Request) (step : Option AuthContext)
      → Memᴰ (req.method, req.full_path) ledger_routes
      → guard_request jwt time (build_auth_config time c) req ≡ next_with step
      → (context : AuthContext) × IsCaller jwt time (build_auth_config time c) req context
        × (permitted (get_required_permission req.method req.full_path) context.permissions ≡ true)
        × (get_required_permission req.method req.full_path ≢ "")
        × (is_meant req.method req.full_path (get_required_permission req.method req.full_path)
            ≡ true)
  ledger_routes-guarded req step route passes =
      let (given, not_health, required) =
        needed req.method req.full_path
          (all-Memᴰ needs_permission ledger_routes _ all_need_permission route) in
      let path = matched_path req given in
      let named : get_required_permission req.method req.full_path ≢ "" =
        λ q. absurd (cc (required, (same_iff _ "").1 q)) in
      elim ((guard_request_iff jwt time (build_auth_config time c) req).0 (step, passes)) [
        | inl health ↦
            absurd (cc (not_health, subst (λ p. is_health_endpoint p ≡ true) path health))
        | inr (context, caller, may) ↦ (
          context,
          caller,
          elim may [
            | inl nothing ↦
                absurd (named (subst (λ p. get_required_permission req.method p ≡ "") path nothing))
            | inr permission ↦
                subst
                  (λ p. permitted (get_required_permission req.method p) context.permissions ≡ true)
                  path permission
          ],
          named,
          route_is_meant req.method req.full_path route,
        )
      ]
