-- ===== src/Config.antt =====
-- internal/config/config.go: the settings of the server and their validation. An error is its fixed
-- text, without the values that it prints. Durations are nanoseconds.
pub mod Load
pub mod Valid
pub mod Whole
pub mod Codes
pub mod Accepted
use double_entry_ledger_engi.Domain.Currency.{is_valid}
use double_entry_ledger_engi.Domain.Validator.{fail_if, ◌then_check◌}
use double_entry_ledger_engi.Base.{
  Bool, List, Option, String, ℕ, ℤ, false, if◌then◌else◌, none, not, pos, same, ◌||◌, is_below_zero,
  is_empty, is_positive, is_some, ltb, ◌&&◌, ◌*◌, ◌∷◌, [], any, len, negsuc, ◌^◌, true, ◌==◌,
}
use double_entry_ledger_engi.Api.Texts.{after_prefix, equal_lower}

pub record DatabaseConfig : Type 0 where
  pub host : String
  pub port : ℤ
  pub user : String
  pub password : String
  pub database : String
  pub ssl_mode : String
  pub max_connections : ℤ
  pub min_connections : ℤ
  pub max_conn_lifetime : ℤ
  pub max_conn_idletime : ℤ

pub record NatsConfig : Type 0 where
  pub enabled : Bool
  pub url : String
  pub subject : String

pub record ServerConfig : Type 0 where
  pub host : String
  pub port : ℤ
  pub request_timeout : ℤ
  pub shutdown_timeout : ℤ
  pub max_body_bytes : ℤ

pub record PerformanceConfig : Type 0 where
  pub max_batch_size : ℤ
  pub balance_query_timeout : ℤ
  pub transaction_timeout : ℤ
  pub enable_balance_snapshots : Bool

pub record LoggingConfig : Type 0 where
  pub level : String
  pub format : String

pub record ApiKeyConfig : Type 0 where
  pub key : String
  pub name : String
  pub permissions : List String
  pub expires_at : Option ℕ
  pub metadata : List (String × String)

pub record AuthSettings : Type 0 where
  pub enable_api_key : Bool
  pub enable_jwt : Bool
  pub jwt_secret : String
  pub jwt_expiration : ℤ
  pub api_keys : List ApiKeyConfig

pub record TracingConfig : Type 0 where
  pub enabled : Bool
  pub service_name : String
  pub endpoint : String
  pub environment : String

-- IdempotencyConfig and CurrenciesConfig have one field each.
pub record Config : Type 0 where
  pub database : DatabaseConfig
  pub nats : NatsConfig
  pub server : ServerConfig
  pub retention_period : ℤ
  pub performance : PerformanceConfig
  pub supported : List String
  pub logging : LoggingConfig
  pub auth : AuthSettings
  pub tracing : TracingConfig

abbrev pub empty : String → Bool
empty s = same s ""

-- n <= 0
abbrev pub not_positive : ℤ → Bool
not_positive n = not (is_positive n)

-- n > limit, for a limit that is not negative
abbrev pub above : ℕ → ℤ → Bool
above limit (pos n) = ltb limit n
above limit (negsuc n) = false

-- m > n
abbrev pub exceeds : ℤ → ℤ → Bool
exceeds (pos m) (pos n) = ltb n m
exceeds (pos m) (negsuc n) = true
exceeds (negsuc m) (pos n) = false
exceeds (negsuc m) (negsuc n) = ltb m n

-- n <= 0 || n > limit
abbrev pub outside : ℕ → ℤ → Bool
outside limit n = not_positive n || above limit n

-- The checks of Validate, part by part and in its order.
unfoldable pub validate_database : DatabaseConfig → Option String
validate_database c =
    fail_if (empty c.host) "DB_HOST is required"
    then_check fail_if (outside 65535 c.port) "DB_PORT must be between 1 and 65535"
    then_check fail_if (empty c.user) "DB_USER is required"
    then_check fail_if (empty c.database) "DB_NAME is required"
    then_check fail_if (not_positive c.max_connections) "DB_MAX_CONNECTIONS must be positive"
    then_check fail_if (is_below_zero c.min_connections) "DB_MIN_CONNECTIONS must be non-negative"
    then_check fail_if (exceeds c.min_connections c.max_connections)
        "DB_MIN_CONNECTIONS cannot exceed DB_MAX_CONNECTIONS"
    then_check fail_if (not_positive c.max_conn_lifetime) "DB_MAX_CONN_LIFETIME must be positive"
    then_check fail_if (not_positive c.max_conn_idletime) "DB_MAX_CONN_IDLE_TIME must be positive"
    then_check fail_if
        (not (any (same c.ssl_mode) ("disable" ∷ "require" ∷ "verify-ca" ∷ "verify-full" ∷ [])))
        "DB_SSL_MODE must be one of: disable, require, verify-ca, verify-full"

unfoldable pub validate_nats : NatsConfig → Option String
unfolding after_prefix
validate_nats c =
    if c.enabled
    then fail_if (empty c.url) "NATS_URL is required when NATS is enabled"
      then_check fail_if (empty c.subject) "NATS_SUBJECT is required when NATS is enabled"
      then_check fail_if (not (is_some (after_prefix "nats://" c.url)))
          "NATS_URL must start with 'nats://'"
    else none

unfoldable pub validate_server : ServerConfig → Option String
validate_server c =
    fail_if (empty c.host) "SERVER_HOST is required"
    then_check fail_if (outside 65535 c.port) "SERVER_PORT must be between 1 and 65535"
    then_check fail_if (not_positive c.request_timeout) "SERVER_REQUEST_TIMEOUT must be positive"
    then_check fail_if (not_positive c.shutdown_timeout) "SERVER_SHUTDOWN_TIMEOUT must be positive"
    then_check fail_if (not_positive c.max_body_bytes) "SERVER_MAX_BODY_BYTES must be positive"

unfoldable pub validate_performance : PerformanceConfig → Option String
validate_performance c =
    fail_if (outside 10000 c.max_batch_size) "MAX_BATCH_SIZE must be between 1 and 10000"
    then_check fail_if (not_positive c.balance_query_timeout)
        "BALANCE_QUERY_TIMEOUT must be positive"
    then_check fail_if (not_positive c.transaction_timeout) "TRANSACTION_TIMEOUT must be positive"
    then_check fail_if (above (10 * 10 ^ 9) c.balance_query_timeout)
        "BALANCE_QUERY_TIMEOUT should not exceed 10 seconds"
    then_check fail_if (above (5 * 60 * 10 ^ 9) c.transaction_timeout)
        "TRANSACTION_TIMEOUT should not exceed 5 minutes"

-- The length and the pattern ^[A-Z]{3}$; a text of the pattern has 3 bytes.
unfoldable pub check_codes : List String → Option String
check_codes [] = none
check_codes (c ∷ cs) =
    fail_if (not (len c == 3)) "invalid currency code: must be 3 characters"
    then_check fail_if (not (is_valid c)) "invalid currency code: must be 3 uppercase letters"
    then_check check_codes cs

-- The loop that fills `currencySet`.
unfoldable pub check_duplicates : List String → List String → Option String
check_duplicates seen [] = none
check_duplicates seen (c ∷ cs) =
    fail_if (any (same c) seen) "duplicate currency code in SUPPORTED_CURRENCIES"
    then_check check_duplicates (c ∷ seen) cs

unfoldable pub validate_currencies : List String → Option String
unfolding check_codes check_duplicates
validate_currencies cs =
    fail_if (is_empty cs) "SUPPORTED_CURRENCIES must contain at least one currency"
    then_check check_codes cs
    then_check check_duplicates [] cs

-- Is the text one of the lower-case `words`, whatever its case?
abbrev pub is_one_of : List String → String → Bool
is_one_of [] s = false
is_one_of (w ∷ words) s = equal_lower w s || is_one_of words s

unfoldable pub validate_logging : LoggingConfig → Option String
validate_logging c =
    fail_if (not (is_one_of ("debug" ∷ "info" ∷ "warn" ∷ "error" ∷ "fatal" ∷ []) c.level))
      "LOG_LEVEL must be one of: debug, info, warn, error, fatal"
    then_check fail_if (not (is_one_of ("json" ∷ "console" ∷ []) c.format))
        "LOG_FORMAT must be one of: json, console"

unfoldable pub check_api_keys : List ApiKeyConfig → Option String
check_api_keys [] = none
check_api_keys (k ∷ ks) =
    fail_if (empty k.key) "API key has empty key"
    then_check fail_if (ltb (len k.key) 12) "API key must be at least 12 characters"
    then_check fail_if (empty k.name) "API key has empty name"
    then_check fail_if (is_empty k.permissions) "API key has no permissions configured"
    then_check check_api_keys ks

unfoldable pub validate_auth : AuthSettings → Option String
unfolding check_api_keys
validate_auth c =
    fail_if (not c.enable_api_key && not c.enable_jwt)
      "at least one authentication method must be enabled"
    then_check fail_if (c.enable_jwt && empty c.jwt_secret)
        "AUTH_JWT_SECRET is required when JWT authentication is enabled"
    then_check fail_if (c.enable_jwt && ltb (len c.jwt_secret) 32)
        "AUTH_JWT_SECRET must be at least 32 characters when JWT authentication is enabled"
    then_check fail_if (not_positive c.jwt_expiration) "AUTH_JWT_EXPIRATION must be positive"
    then_check fail_if (c.enable_api_key && is_empty c.api_keys)
        "at least one API key must be configured when API key authentication is enabled"
    then_check check_api_keys c.api_keys

unfoldable pub validate_tracing : TracingConfig → Option String
validate_tracing c =
    if c.enabled
    then fail_if (empty c.service_name) "TRACING_SERVICE_NAME is required when tracing is enabled"
      then_check fail_if (empty c.endpoint) "TRACING_ENDPOINT is required when tracing is enabled"
      then_check fail_if (empty c.environment)
          "TRACING_ENVIRONMENT is required when tracing is enabled"
    else none

unfoldable pub validate : Config → Option String
unfolding validate_database validate_nats validate_server validate_performance validate_currencies
    validate_logging validate_auth validate_tracing
validate c =
    validate_database c.database
    then_check validate_nats c.nats
    then_check validate_server c.server
    then_check fail_if (not_positive c.retention_period) "IDEMPOTENCY_RETENTION must be positive"
    then_check validate_performance c.performance
    then_check validate_currencies c.supported
    then_check validate_logging c.logging
    then_check validate_auth c.auth
    then_check validate_tracing c.tracing
