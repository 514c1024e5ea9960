-- ===== src/Config/Accepted.antt =====
-- internal/config/config.go, Validate: each part of the settings against its conditions.
use double_entry_ledger_engi.Base.{◌≡◌, ◌≢◌, none, ◌∷◌, [], ◌↔◌, same_iff, pos, ◌*◌, ◌^◌}
use mathlib.Core.List.{Memᴰ}
use native.Mathlib.Omega.{arith}
use double_entry_ledger_engi.Config.{
  DatabaseConfig, validate_database, PerformanceConfig, ServerConfig, validate_performance,
  validate_server,
}
use double_entry_ledger_engi.Config.Valid.{
  IsWithin, IsPositive, IsNonneg, IsAtMost, IsWithin-iff, IsPositive-iff, IsNonneg-iff, at_most_iff,
  any_iff, limit_iff,
}

pub record IsDatabase (c : DatabaseConfig) : Type 0 where
  pub host : c.host ≢ ""
  pub port : IsWithin 65535 c.port
  pub user : c.user ≢ ""
  pub database : c.database ≢ ""
  pub max_connections : IsPositive c.max_connections
  pub min_connections : IsNonneg c.min_connections
  pub ordered : IsAtMost c.min_connections c.max_connections
  pub lifetime : IsPositive c.max_conn_lifetime
  pub idletime : IsPositive c.max_conn_idletime
  pub ssl_mode : Memᴰ c.ssl_mode ("disable" ∷ "require" ∷ "verify-ca" ∷ "verify-full" ∷ [])

pub validate_database_iff : (c : DatabaseConfig) → (validate_database c ≡ none) ↔ IsDatabase c
unfolding validate_database
validate_database_iff c = (
  (λ h. record {
    host = λ q. ground (arith, same_iff c.host "");
    port = (IsWithin-iff 65535 c.port).0 (ground arith);
    user = λ q. ground (arith, same_iff c.user "");
    database = λ q. ground (arith, same_iff c.database "");
    max_connections = (IsPositive-iff c.max_connections).0 (ground arith);
    min_connections = (IsNonneg-iff c.min_connections).0 (ground arith);
    ordered = (at_most_iff c.min_connections c.max_connections).0 (ground arith);
    lifetime = (IsPositive-iff c.max_conn_lifetime).0 (ground arith);
    idletime = (IsPositive-iff c.max_conn_idletime).0 (ground arith);
    ssl_mode = (any_iff c.ssl_mode _).0 (ground arith);
  }),
  (λ w. ground (
    arith,
    same_iff c.host "",
    (IsWithin-iff 65535 c.port).1 w.port,
    same_iff c.user "",
    same_iff c.database "",
    (IsPositive-iff c.max_connections).1 w.max_connections,
    (IsNonneg-iff c.min_connections).1 w.min_connections,
    (at_most_iff c.min_connections c.max_connections).1 w.ordered,
    (IsPositive-iff c.max_conn_lifetime).1 w.lifetime,
    (IsPositive-iff c.max_conn_idletime).1 w.idletime,
    (any_iff c.ssl_mode _).1 w.ssl_mode,
  )),
)

pub record IsServer (c : ServerConfig) : Type 0 where
  pub host : c.host ≢ ""
  pub port : IsWithin 65535 c.port
  pub request_timeout : IsPositive c.request_timeout
  pub shutdown_timeout : IsPositive c.shutdown_timeout
  pub max_body_bytes : IsPositive c.max_body_bytes

pub validate_server_iff : (c : ServerConfig) → (validate_server c ≡ none) ↔ IsServer c
unfolding validate_server
validate_server_iff c = (
  (λ h. record {
    host = λ q. ground (arith, same_iff c.host "");
    port = (IsWithin-iff 65535 c.port).0 (ground arith);
    request_timeout = (IsPositive-iff c.request_timeout).0 (ground arith);
    shutdown_timeout = (IsPositive-iff c.shutdown_timeout).0 (ground arith);
    max_body_bytes = (IsPositive-iff c.max_body_bytes).0 (ground arith);
  }),
  (λ w. ground (
    arith,
    same_iff c.host "",
    (IsWithin-iff 65535 c.port).1 w.port,
    (IsPositive-iff c.request_timeout).1 w.request_timeout,
    (IsPositive-iff c.shutdown_timeout).1 w.shutdown_timeout,
    (IsPositive-iff c.max_body_bytes).1 w.max_body_bytes,
  )),
)

pub record IsPerformance (c : PerformanceConfig) : Type 0 where
  pub max_batch_size : IsWithin 10000 c.max_batch_size
  pub balance_query_timeout : IsPositive c.balance_query_timeout
  pub transaction_timeout : IsPositive c.transaction_timeout
  pub short_query : IsAtMost c.balance_query_timeout (pos (10 * 10 ^ 9))
  pub short_transaction : IsAtMost c.transaction_timeout (pos (5 * 60 * 10 ^ 9))

pub validate_performance_iff :
    (c : PerformanceConfig) → (validate_performance c ≡ none) ↔ IsPerformance c
unfolding validate_performance
validate_performance_iff c = (
  (λ h. record {
    max_batch_size = (IsWithin-iff 10000 c.max_batch_size).0 (ground arith);
    balance_query_timeout = (IsPositive-iff c.balance_query_timeout).0 (ground arith);
    transaction_timeout = (IsPositive-iff c.transaction_timeout).0 (ground arith);
    short_query = (limit_iff (10 * 10 ^ 9) c.balance_query_timeout).0 (ground arith);
    short_transaction = (limit_iff (5 * 60 * 10 ^ 9) c.transaction_timeout).0 (ground arith);
  }),
  (λ w. ground (
    arith,
    (IsWithin-iff 10000 c.max_batch_size).1 w.max_batch_size,
    (IsPositive-iff c.balance_query_timeout).1 w.balance_query_timeout,
    (IsPositive-iff c.transaction_timeout).1 w.transaction_timeout,
    (limit_iff (10 * 10 ^ 9) c.balance_query_timeout).1 w.short_query,
    (limit_iff (5 * 60 * 10 ^ 9) c.transaction_timeout).1 w.short_transaction,
  )),
)
