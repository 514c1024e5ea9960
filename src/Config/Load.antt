-- ===== src/Config/Load.antt =====
-- Load of internal/config/config.go: the settings from the environment variables. `getenv` answers ""
-- for a variable that is not set; time.ParseDuration is the argument `parse_duration`.
use double_entry_ledger_engi.Api.Texts.{trim_space, atoi}
use double_entry_ledger_engi.Config.{ApiKeyConfig, Config, validate}
use double_entry_ledger_engi.Base.{
  List, Option, String, none, ℕ, Bool, [], if◌then◌else◌, some, ℤ, ◌∷◌, any, ok, pos, same, ◌==◌,
  Result, false, true, ◌*◌, err, ◌^◌,
}
use Prim.Native.Char.{code}

-- strings.Split(s, sep) of a separator of one character: the part that the text begins with, and the
-- other parts.
abbrev pub split_at : ℕ → String → String × List String
split_at sep String.[] = ("", [])
split_at sep (String.◌∷◌ c s) =
    let rest = split_at sep s in
    if code c == sep then ("", rest.0 ∷ rest.1) else (String.◌∷◌ c rest.0, rest.1)

unfoldable pub split : ℕ → String → List String
split sep s = let parts = split_at sep s in parts.0 ∷ parts.1

-- The text before the first separator and the text after it.
abbrev pub cut_first : ℕ → String → Option (String × String)
cut_first sep String.[] = none
cut_first sep (String.◌∷◌ c s) =
    let rest = cut_first sep s in
    if code c == sep
    then some ("", s)
    else elim rest [ none ↦ none | some (before, after) ↦ some (String.◌∷◌ c before, after) ]

-- strings.TrimSpace of each part, without those that are empty
unfoldable pub trimmed_parts : List String → List String
unfolding trim_space
trimmed_parts [] = []
trimmed_parts (p ∷ ps) =
    if same (trim_space p) "" then trimmed_parts ps else trim_space p ∷ trimmed_parts ps

abbrev key_of : String → Option (String × String) → Option ApiKeyConfig
key_of key none = none
key_of key (some (name, permissions)) = some (record {
  key = key;
  name = name;
  permissions = split b',' permissions;
  expires_at = none;
  metadata = [];
})

abbrev parsed_key : Option (String × String) → Option ApiKeyConfig
parsed_key none = none
parsed_key (some (key, rest)) = key_of key (cut_first b':' rest)

-- strings.SplitN(entry, ":", 3), of which an entry with fewer parts is skipped
abbrev pub parse_key : String → Option ApiKeyConfig
parse_key entry = parsed_key (cut_first b':' entry)

abbrev add_key : Option ApiKeyConfig → List ApiKeyConfig → List ApiKeyConfig
add_key none keys = keys
add_key (some k) keys = k ∷ keys

unfoldable pub parse_keys : List String → List ApiKeyConfig
unfolding split
parse_keys [] = []
parse_keys (entry ∷ entries) = add_key (parse_key entry) (parse_keys entries)

abbrev pub development_key : ApiKeyConfig
development_key = record {
  key = "dev-key-12345";
  name = "development";
  permissions =
      "transaction:post" ∷ "transaction:read" ∷ "transaction:settle" ∷ "transaction:cancel"
      ∷ "transaction:reverse" ∷ "account:create" ∷ "account:read" ∷ "account:update"
      ∷ "balance:read" ∷ [];
  expires_at = none;
  metadata = ("environment", "development") ∷ [];
}

abbrev or_default : {A : Type 0} → A → Option A → A
or_default d none = d
or_default d (some a) = a

-- strconv.ParseBool
unfoldable pub parse_bool : String → Option Bool
parse_bool s =
    if any (same s) ("1" ∷ "t" ∷ "T" ∷ "TRUE" ∷ "true" ∷ "True" ∷ [])
    then some true
    else if any (same s) ("0" ∷ "f" ∷ "F" ∷ "FALSE" ∷ "false" ∷ "False" ∷ [])
    then some false
    else none

module _ (getenv : String → String) (parse_duration : String → Option ℤ) where
  unfoldable pub get_env : String → String → String
  get_env key default_value = if same (getenv key) "" then default_value else getenv key

  -- getEnvAsInt and getEnvAsInt64
  unfoldable pub get_env_as_int : String → ℤ → ℤ
  unfolding atoi
  get_env_as_int key default_value =
      if same (getenv key) "" then default_value else or_default default_value (atoi (getenv key))

  unfoldable pub get_env_as_duration : String → ℤ → ℤ
  get_env_as_duration key default_value =
      if same (getenv key) ""
      then default_value
      else or_default default_value (parse_duration (getenv key))

  unfoldable pub get_env_as_bool : String → Bool → Bool
  unfolding parse_bool
  get_env_as_bool key default_value =
      if same (getenv key) ""
      then default_value
      else or_default default_value (parse_bool (getenv key))

  unfoldable pub get_env_as_slice : String → List String → List String
  unfolding split trimmed_parts
  get_env_as_slice key default_value =
      if same (getenv key) "" then default_value else trimmed_parts (split b',' (getenv key))

  unfoldable pub load_api_keys_from_env : List ApiKeyConfig
  unfolding parse_keys split
  load_api_keys_from_env =
      if same (getenv "AUTH_API_KEYS") ""
      then development_key ∷ []
      else parse_keys (split b';' (getenv "AUTH_API_KEYS"))

  abbrev seconds : ℕ → ℤ
  seconds n = pos (n * 10 ^ 9)

  unfoldable pub settings : Config
  unfolding get_env get_env_as_int get_env_as_duration get_env_as_bool get_env_as_slice
      load_api_keys_from_env
  settings = record {
    database = record {
      host = get_env "DB_HOST" "localhost";
      port = get_env_as_int "DB_PORT" (pos 5432);
      user = get_env "DB_USER" "postgres";
      password = get_env "DB_PASSWORD" "";
      database = get_env "DB_NAME" "ledger";
      ssl_mode = get_env "DB_SSL_MODE" "disable";
      max_connections = get_env_as_int "DB_MAX_CONNECTIONS" (pos 25);
      min_connections = get_env_as_int "DB_MIN_CONNECTIONS" (pos 5);
      max_conn_lifetime = get_env_as_duration "DB_MAX_CONN_LIFETIME" (seconds 3600);
      max_conn_idletime = get_env_as_duration "DB_MAX_CONN_IDLE_TIME" (seconds 1800);
    };
    nats = record {
      enabled = get_env_as_bool "NATS_ENABLED" false;
      url = get_env "NATS_URL" "nats://localhost:4222";
      subject = get_env "NATS_SUBJECT" "ledger.events";
    };
    server = record {
      host = get_env "SERVER_HOST" "0.0.0.0";
      port = get_env_as_int "SERVER_PORT" (pos 8080);
      request_timeout = get_env_as_duration "SERVER_REQUEST_TIMEOUT" (seconds 30);
      shutdown_timeout = get_env_as_duration "SERVER_SHUTDOWN_TIMEOUT" (seconds 30);
      max_body_bytes = get_env_as_int "SERVER_MAX_BODY_BYTES" (pos (1024 * 1024));
    };
    retention_period = get_env_as_duration "IDEMPOTENCY_RETENTION" (seconds 86400);
    performance = record {
      max_batch_size = get_env_as_int "MAX_BATCH_SIZE" (pos 1000);
      balance_query_timeout = get_env_as_duration "BALANCE_QUERY_TIMEOUT" (pos (100 * 10 ^ 6));
      transaction_timeout = get_env_as_duration "TRANSACTION_TIMEOUT" (seconds 5);
      enable_balance_snapshots = get_env_as_bool "ENABLE_BALANCE_SNAPSHOTS" false;
    };
    supported =
        get_env_as_slice "SUPPORTED_CURRENCIES" ("USD" ∷ "EUR" ∷ "GBP" ∷ "JPY" ∷ "CNY" ∷ []);
    logging = record { level = get_env "LOG_LEVEL" "info"; format = get_env "LOG_FORMAT" "json" };
    auth = record {
      enable_api_key = get_env_as_bool "AUTH_ENABLE_API_KEY" true;
      enable_jwt = get_env_as_bool "AUTH_ENABLE_JWT" false;
      jwt_secret = get_env "AUTH_JWT_SECRET" "";
      jwt_expiration = get_env_as_duration "AUTH_JWT_EXPIRATION" (seconds 86400);
      api_keys = load_api_keys_from_env;
    };
    tracing = record {
      enabled = get_env_as_bool "TRACING_ENABLED" false;
      service_name = get_env "TRACING_SERVICE_NAME" "double-entry-ledger-engine";
      endpoint = get_env "TRACING_ENDPOINT" "http://localhost:4318/v1/traces";
      environment = get_env "TRACING_ENVIRONMENT" "development";
    };
  }

  abbrev checked : Config → Option String → Result String Config
  checked c none = ok c
  checked c (some e) = err e

  unfoldable pub load : Result String Config
  unfolding settings validate
  load = checked settings (validate settings)
