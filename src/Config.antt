-- ===== src/Config.antt =====
-- internal/config/config.go: the configuration tree and the errors of `Load`. Env has the references
-- to the environment, Validate the checks, Load the whole of it.
pub mod Env
pub mod Validate
pub mod Load
mod Tests
use mt_mcp_proxy.Base.{ℕ, String, Option, List, ◌==◌, if◌then◌else◌}
use mt_mcp_proxy.Base.Dict.{Dict}

pub record ServerConfig : Type 0 where
  pub listen : String
  pub path : String
  pub external_url : String

pub record ObservabilityConfig : Type 0 where
  pub metrics_listen : String
  pub metrics_path : String

-- `AuthMode` is a string type; any text may stand in the file.
abbrev pub auth_mode_jwks : String
auth_mode_jwks = "jwks"

abbrev pub auth_mode_static : String
auth_mode_static = "static"

abbrev pub auth_mode_insecure : String
auth_mode_insecure = "insecure"

pub record AuthConfig : Type 0 where
  pub mode : String
  pub groups_claim : String
  pub issuer : String
  pub audience : String
  pub additional_audiences : List String
  pub scopes_supported : List String
  pub jwks_url : String
  pub hmac_secret : String
  pub public_key_pem_file : String

pub record TenantConfig : Type 0 where
  pub id : String
  pub groups : List String
  pub credential : String
  pub headers : Dict String

-- A nil `*string` scheme is `none`.
pub record BackendConfig : Type 0 where
  pub name : String
  pub url : String
  pub headers : Dict String
  pub credential : String
  pub credential_header : String
  pub credential_scheme : Option String
  pub protocol_version : String
  pub tenants : List TenantConfig

pub record Config : Type 0 where
  pub server : ServerConfig
  pub auth : AuthConfig
  pub backends : List BackendConfig
  pub observability : ObservabilityConfig

abbrev pub protocol_version_stateful : String
protocol_version_stateful = "2025-03-26"

abbrev pub protocol_version_stateless : String
protocol_version_stateless = "2026-07-28"

-- `if s == "" { s = d }`
abbrev pub or_default : String → String → String
or_default s d = if s == "" then d else s

-- The errors, with the texts that their messages name: backend, tenant, header, variable.
pub data ConfigError : Type 0 where
  read_config parse_config no_backends : ConfigError
  jwks_source_missing static_key_count : ConfigError
  unknown_mode : String → ConfigError
  credential_unset : String → String → ConfigError
  header_unset : String → String × String → ConfigError
  tenant_credential_unset : String → String → String → ConfigError
  tenant_header_unset : String → String → String × String → ConfigError
  name_required : ℕ → ConfigError
  duplicate_backend url_required no_tenants : String → ConfigError
  unknown_protocol : String → String → ConfigError
  id_required : String → ℕ → ConfigError
  duplicate_tenant : String → String → String → ConfigError
  no_groups : String → String → ConfigError
