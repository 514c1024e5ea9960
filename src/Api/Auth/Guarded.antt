-- ===== src/Api/Auth/Guarded.antt =====
-- Who passes the authentication and the authorization.
use double_entry_ledger_engi.Api.Auth.Callers.{
  IsCaller, MayCall, credentials_granted, credentials_ok,
}
use double_entry_ledger_engi.Api.Response.{Sent}
use double_entry_ledger_engi.Api.Texts.{trim_space}
use double_entry_ledger_engi.Api.Auth.{
  Jwt, AuthConfig, AuthContext, Request, get_required_permission, route_path, permitted,
  authentication, authorization, guard_request, authorize, next_with, is_health_endpoint, abort,
  admit, Step, then_authorize,
}
use double_entry_ledger_engi.Base.{
  String, ℕ, Option, none, same, ◌≡◌, Bool, false, ok, true, ◌⊎◌, some, if◌then◌else◌, Bool-cases,
  inl, arith, inr, refl, subst, ◌↔◌, same_iff, Result, err, ap, ◌∙◌,
}

module _ {Token : Type 0} (jwt : Jwt Token) (time : ℕ) (config : AuthConfig) where
  passed :
      (req : Request) (health empty : Bool) (refusal : Sent) (r : Result String AuthContext)
      (step : Option AuthContext)
      → (if health then next_with none else if empty then abort refusal else admit jwt req r)
        ≡ next_with step
      → (health ≡ true) ⊎ ((context : AuthContext) × (step ≡ some context) × (r ≡ ok context))
  passed req true empty refusal r step h = inl refl
  passed req false true refusal r step h = absurd cc
  passed req false false refusal (ok context) step h = inr (context, cc, refl)
  passed req false false refusal (err e) step h = absurd cc

  authorized :
      (req : Request) (permission : String) (context : AuthContext) (step : Option AuthContext)
      → authorize req permission (some context) ≡ next_with step
      → (permission ≡ "") ⊎ (permitted permission context.permissions ≡ true)
  unfolding authorize
  authorized req permission context step h = elim (Bool-cases (same permission "")) [
    | inl none_needed ↦ inl ((same_iff permission "").0 none_needed)
    | inr needed ↦ elim (Bool-cases (permitted permission context.permissions)) [
      | inl y ↦ inr y
      | inr n ↦ absurd (ground arith)
    ]
  ]

  granted :
      (req : Request) (permission : String) (context : AuthContext)
      → (permission ≡ "") ⊎ (permitted permission context.permissions ≡ true)
      → authorize req permission (some context) ≡ next_with (some context)
  unfolding authorize
  granted req permission context (inl e) = rw ((same_iff permission "").1 e) refl
  granted req permission context (inr y) = ground arith

  route_checked :
      (req : Request) (context : AuthContext) (step : Option AuthContext)
      → authorization req (some context) ≡ next_with step
      → (is_health_endpoint (route_path req) ≡ true) ⊎ MayCall jwt time config req context
  unfolding authorization
  route_checked req context step h = elim (Bool-cases (is_health_endpoint (route_path req))) [
    | inl y ↦ inl y
    | inr n ↦ inr (
        authorized req _ context step (
          subst
            (λ b.
              (if b
                then next_with (some context)
                else authorize req (get_required_permission req.method (route_path req))
                    (some context))
              ≡ next_with step)
            n h))
  ]

  both_steps :
      (req : Request) (s : Step) (step : Option AuthContext)
      → then_authorize req s ≡ next_with step
      → (c : Option AuthContext) × (s ≡ next_with c) × (authorization req c ≡ next_with step)
  both_steps req (abort sent) step h = absurd cc
  both_steps req (next_with c) step h = (c, refl, h)

  health_passes :
      (req : Request)
      → is_health_endpoint (route_path req) ≡ true
      → guard_request jwt time config req ≡ next_with none
  unfolding guard_request
  health_passes req health =
      ap (then_authorize req) (unauthenticated req health) ∙ unauthorized_route req health
    where
      unauthenticated :
          (r : Request)
          → is_health_endpoint (route_path r) ≡ true
          → authentication jwt time config r ≡ next_with none
      unauthenticated r h = unfold authentication in rw h refl

      unauthorized_route :
          (r : Request)
          → is_health_endpoint (route_path r) ≡ true
          → authorization r none ≡ next_with none
      unauthorized_route r h = unfold authorization in rw h refl

  caller_passes :
      (req : Request) (context : AuthContext)
      → is_health_endpoint (route_path req) ≡ false
      → IsCaller jwt time config req context
      → authentication jwt time config req ≡ next_with (some context)
  unfolding authentication
  caller_passes req context other caller =
      let (accepted, given) =
        credentials_granted jwt time config (trim_space req.api_key) (trim_space req.authorization)
          context caller in
      rw (other, given, accepted) refl

  route_passes :
      (req : Request) (context : AuthContext)
      → is_health_endpoint (route_path req) ≡ false
      → MayCall jwt time config req context
      → authorization req (some context) ≡ next_with (some context)
  unfolding authorization
  route_passes req context other may =
      rw other (granted req (get_required_permission req.method (route_path req)) context may)

  only_callers :
      (req : Request) (step : Option AuthContext)
      → guard_request jwt time config req ≡ next_with step
      → (is_health_endpoint (route_path req) ≡ true)
        ⊎ ((context : AuthContext) × IsCaller jwt time config req context
            × MayCall jwt time config req context)
  unfolding guard_request authentication
  only_callers req step h =
      let (c, authenticated, checked) =
        both_steps req (authentication jwt time config req) step h in
      elim (passed req _ _ _ _ c authenticated) [
        | inl health ↦ inl health
        | inr (context, e, accepted) ↦
            elim (route_checked req context step
              (subst (λ o. authorization req o ≡ next_with step) e checked)) [
                | inl health ↦ inl health
                | inr may ↦ inr (
                  context,
                  credentials_ok jwt time config (trim_space req.api_key)
                      (trim_space req.authorization) context accepted,
                  may,
                )
              ]
      ]

  all_callers :
      (req : Request)
      → (is_health_endpoint (route_path req) ≡ true)
        ⊎ ((context : AuthContext) × IsCaller jwt time config req context
            × MayCall jwt time config req context)
      → (step : Option AuthContext) × (guard_request jwt time config req ≡ next_with step)
  unfolding guard_request
  all_callers req (inl health) = (none, health_passes req health)
  all_callers req (inr (context, caller, may)) =
      elim (Bool-cases (is_health_endpoint (route_path req))) [
        | inl health ↦ (none, health_passes req health)
        | inr other ↦ (
          some context,
          ap (then_authorize req) (caller_passes req context other caller)
              ∙ route_passes req context other may,
        )
      ]

  -- A request passes the authentication and the authorization exactly if it is for a health endpoint,
  -- or if it comes with a listed API key or an accepted token, neither of them expired, whose
  -- permissions hold what the route requires, where it requires anything.
  pub guard_request_iff :
      (req : Request)
      → ((step : Option AuthContext) × (guard_request jwt time config req ≡ next_with step)) ↔ (
          (is_health_endpoint (route_path req) ≡ true)
          ⊎ ((context : AuthContext) × IsCaller jwt time config req context
              × MayCall jwt time config req context))
  guard_request_iff req = (λ h. only_callers req h.0 h.1, all_callers req)
