-- ===== src/Config/Whole.antt =====
-- internal/config/config.go, Validate: the settings that are accepted.
use double_entry_ledger_engi.Domain.Validator.{fail_if, ◌then_check◌}
use double_entry_ledger_engi.Api.Texts.{after_prefix}
use double_entry_ledger_engi.Base.{
  ◌∷◌, ◌≡◌, ◌≢◌, [], is_some, none, true, ◌↔◌, Bool-cases, inl, same_iff, inr, Option, ℤ, some,
  refl, String,
}
use native.Mathlib.Omega.{arith}
use double_entry_ledger_engi.Config.{
  Config, NatsConfig, TracingConfig, LoggingConfig, validate_nats, validate_tracing,
  validate_logging, validate, is_one_of, not_positive,
}
use double_entry_ledger_engi.Config.Valid.{IsPositive, IsPositive-iff}
use double_entry_ledger_engi.Config.Accepted.{
  IsDatabase, IsServer, IsPerformance, validate_database_iff, validate_server_iff,
  validate_performance_iff,
}
use double_entry_ledger_engi.Config.Codes.{
  IsCurrencies, IsAuth, validate_currencies_iff, validate_auth_iff,
}

pub record IsNats (c : NatsConfig) : Type 0 where
  pub url : c.url ≢ ""
  pub subject : c.subject ≢ ""
  pub scheme : is_some (after_prefix "nats://" c.url) ≡ true

validate_nats_iff : (c : NatsConfig) → (validate_nats c ≡ none) ↔ (c.enabled ≡ true → IsNats c)
unfolding validate_nats
validate_nats_iff c = elim (Bool-cases c.enabled) [
  | inl e ↦ (
    (λ h _. record {
      url = λ q. ground (arith, same_iff c.url "");
      subject = λ q. ground (arith, same_iff c.subject "");
      scheme = ground arith;
    }),
    (λ w.
        let r = w e in
        ground (arith, same_iff c.url "", r.url, same_iff c.subject "", r.subject, r.scheme)),
  )
  | inr e ↦ ((λ _ q. absurd (ground arith)), (λ w. ground arith))
]

pub record IsTracing (c : TracingConfig) : Type 0 where
  pub service_name : c.service_name ≢ ""
  pub endpoint : c.endpoint ≢ ""
  pub environment : c.environment ≢ ""

validate_tracing_iff :
    (c : TracingConfig) → (validate_tracing c ≡ none) ↔ (c.enabled ≡ true → IsTracing c)
unfolding validate_tracing
validate_tracing_iff c = elim (Bool-cases c.enabled) [
  | inl e ↦ (
    (λ h _. record {
      service_name = λ q. ground (arith, same_iff c.service_name "");
      endpoint = λ q. ground (arith, same_iff c.endpoint "");
      environment = λ q. ground (arith, same_iff c.environment "");
    }),
    (λ w.
        let r = w e in
        ground (
          arith,
          same_iff c.service_name "",
          r.service_name,
          same_iff c.endpoint "",
          r.endpoint,
          same_iff c.environment "",
          r.environment,
        )),
  )
  | inr e ↦ ((λ _ q. absurd (ground arith)), (λ w. ground arith))
]

-- A level and a format of the lists, in any case of letters.
pub record IsLogging (c : LoggingConfig) : Type 0 where
  pub level : is_one_of ("debug" ∷ "info" ∷ "warn" ∷ "error" ∷ "fatal" ∷ []) c.level ≡ true
  pub format : is_one_of ("json" ∷ "console" ∷ []) c.format ≡ true

validate_logging_iff : (c : LoggingConfig) → (validate_logging c ≡ none) ↔ IsLogging c
unfolding validate_logging
validate_logging_iff c = (
  (λ h. record { level = ground arith; format = ground arith }),
  (λ w. ground (arith, w.level, w.format)),
)

retention_iff :
    (n : ℤ)
    → (fail_if {E = String} (not_positive n) "IDEMPOTENCY_RETENTION must be positive" ≡ none)
      ↔ IsPositive n
retention_iff n =
    ((λ h. (IsPositive-iff n).0 (ground arith)), (λ w. ground (arith, (IsPositive-iff n).1 w)))

-- Two checks that both pass.
first_none : {E : Type 0} (a b : Option E) → (a then_check b) ≡ none → (a ≡ none) × (b ≡ none)
first_none none b h = (refl, h)
first_none (some e) b h = ground arith

pub record IsAccepted (c : Config) : Type 0 where
  pub database : IsDatabase c.database
  pub nats : c.nats.enabled ≡ true → IsNats c.nats
  pub server : IsServer c.server
  pub retention : IsPositive c.retention_period
  pub performance : IsPerformance c.performance
  pub currencies : IsCurrencies c.supported
  pub logging : IsLogging c.logging
  pub auth : IsAuth c.auth
  pub tracing : c.tracing.enabled ≡ true → IsTracing c.tracing

-- Validate accepts exactly the settings whose parts satisfy their conditions: bounded ports and batch
-- sizes, positive limits and timeouts, an SSL mode, a log level and a log format of the lists, valid
-- currency codes that all differ, a method of authentication with long enough secrets and keys, and
-- the texts of NATS and of tracing where these are enabled.
pub validate_iff : (c : Config) → (validate c ≡ none) ↔ IsAccepted c
unfolding validate
validate_iff c =
    let (database, f0) = validate_database_iff c.database in
    let (nats, f1) = validate_nats_iff c.nats in
    let (server, f2) = validate_server_iff c.server in
    let (retention, f3) = retention_iff c.retention_period in
    let (performance, f4) = validate_performance_iff c.performance in
    let (currencies, f5) = validate_currencies_iff c.supported in
    let (logging, f6) = validate_logging_iff c.logging in
    let (auth, f7) = validate_auth_iff c.auth in
    let (tracing, f8) = validate_tracing_iff c.tracing in
    (
      (λ h.
          let (h0, r0) = first_none _ _ h in
          let (h1, r1) = first_none _ _ r0 in
          let (h2, r2) = first_none _ _ r1 in
          let (h3, r3) = first_none _ _ r2 in
          let (h4, r4) = first_none _ _ r3 in
          let (h5, r5) = first_none _ _ r4 in
          let (h6, r6) = first_none _ _ r5 in
          let (h7, h8) = first_none _ _ r6 in
          record {
            database = database h0;
            nats = nats h1;
            server = server h2;
            retention = retention h3;
            performance = performance h4;
            currencies = currencies h5;
            logging = logging h6;
            auth = auth h7;
            tracing = tracing h8;
          }),
      (λ w.
          rw
            (
              f0 w.database,
              f1 w.nats,
              f2 w.server,
              f3 w.retention,
              f4 w.performance,
              f5 w.currencies,
              f6 w.logging,
              f7 w.auth,
              f8 w.tracing,
            )
            refl),
    )
