-- ===== src/Model.antt =====
-- internal/model/model.go and the row types of internal/repo: the rows of the database and the
-- errors of the data layer. A time is a number of nanoseconds, a Go string its bytes.
use pio.Base.{ℕ, Bool, Option, GoString, codes}
use pio.Base.Int.{ℤ}

pub record ApiKey : Type 0 where
  pub id : ℕ
  pub label : GoString
  pub encrypted_key : GoString
  pub added_at : ℕ
  pub last_synced_at : Option ℕ
  pub last_sync_error : GoString
  pub active : Bool

pub record UpstreamProxy : Type 0 where
  pub id : GoString
  pub source : GoString
  pub source_api_key_id : Option ℕ
  pub manual_name : GoString
  pub host : GoString
  pub port : ℕ
  pub username : GoString
  pub encrypted_password : GoString
  pub protocol : GoString
  pub display_name : GoString
  pub country_code : GoString
  pub city_name : GoString
  pub recently_failing : Bool
  pub recent_failure_count : ℕ
  pub recent_failure_since : Option ℕ
  pub last_seen_at : ℕ
  pub last_latency_ms : Option ℤ
  pub last_latency_at : Option ℕ

-- `none` is a NULL mapping. The column order_index is of the row alone: model.LocalUser has no field
-- for it.
pub record LocalUser : Type 0 where
  pub username : GoString
  pub password_plain : GoString
  pub upstream_proxy_id : Option GoString
  pub broken : Bool
  pub notes : GoString
  pub order_index : ℕ
  pub created_at : ℕ
  pub updated_at : ℕ

-- The single row of the settings table, its password column apart.
pub record Settings : Type 0 where
  pub sync_interval_minutes : ℤ
  pub proxy_port : ℤ
  pub proxy_bind : GoString
  pub api_port : ℤ
  pub proxy_enabled : Bool
  pub subscription_enabled : Bool
  pub subscription_host : GoString

-- One row in the answer that a key or an upstream is in use.
pub record ReferencingUser : Type 0 where
  pub username : GoString
  pub upstream_proxy_id : GoString
  pub display_name : GoString
  pub country_code : GoString

-- An upstream with its password decrypted.
pub record ResolvedUpstream : Type 0 where
  pub upstream : UpstreamProxy
  pub open upstream use *
  pub password : GoString

pub record AuditLogEntry : Type 0 where
  pub at : ℕ
  pub actor : GoString
  pub action : GoString
  pub username : GoString
  pub old_upstream_id : GoString
  pub new_upstream_id : GoString

abbrev pub source_webshare : GoString
source_webshare = codes "webshare"

abbrev pub source_manual : GoString
source_manual = codes "manual"

abbrev pub source_default : GoString
source_default = codes "default"

abbrev pub default_upstream_id : GoString
default_upstream_id = codes "default"

abbrev pub protocol_http : GoString
protocol_http = codes "http"

abbrev pub protocol_https : GoString
protocol_https = codes "https"

abbrev pub protocol_socks5 : GoString
protocol_socks5 = codes "socks5"
