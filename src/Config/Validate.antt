-- ===== src/Config/Validate.antt =====
-- config.go: `applyDefaults` and `Validate`.
pub mod Laws
pub mod Usable
pub mod Tenants
use mt_mcp_proxy.Base.{
  ℕ, ◌+◌, String, Bool, true, false, not, ◌&&◌, ◌||◌, Option, none, some, List, [], ◌∷◌, ◌==◌,
  Result, ok, err, ◌>>=◌, ◌>>◌, fail_if, if◌then◌else◌, is_empty, map,
}
use mt_mcp_proxy.Base.Dict.{Dict, lookup, insert, has}
use mt_mcp_proxy.Config.{
  ServerConfig, AuthConfig, ObservabilityConfig, BackendConfig, TenantConfig, Config, ConfigError,
  no_backends, jwks_source_missing, static_key_count, unknown_mode, name_required,
  duplicate_backend, url_required, no_tenants, unknown_protocol, id_required, duplicate_tenant,
  no_groups, auth_mode_jwks, auth_mode_static, auth_mode_insecure, protocol_version_stateful,
  protocol_version_stateless, or_default,
}

-- `if s == nil { s = &d }`
abbrev pub or_set : Option String → String → Option String
or_set none d = some d
or_set (some s) d = some s

unfoldable pub default_backend : BackendConfig → BackendConfig
default_backend b = record b {
  credential_header = or_default b.credential_header "Authorization";
  credential_scheme = or_set b.credential_scheme "Bearer";
  protocol_version = or_default b.protocol_version protocol_version_stateful;
}

unfoldable pub default_backends : List BackendConfig → List BackendConfig
default_backends [] = []
default_backends (b ∷ bs) = default_backend b ∷ default_backends bs

unfoldable pub apply_defaults : Config → Config
apply_defaults c = record {
  server = record server {
    listen = or_default server.listen ":8080";
    path = or_default server.path "/mcp";
  };
  auth = record auth { groups_claim = or_default auth.groups_claim "groups" };
  backends = default_backends backends;
  observability = record {
    metrics_listen = or_default observability.metrics_listen ":9090";
    metrics_path = or_default observability.metrics_path "/metrics";
  };
}
  where
    open c use {server, auth, backends, observability}

-- The `switch` on the mode.
unfoldable pub validate_auth : AuthConfig → Result ConfigError (Unit {0})
validate_auth a =
    if a.mode == auth_mode_jwks
    then fail_if (a.jwks_url == "" && a.issuer == "") jwks_source_missing
    else if a.mode == auth_mode_static
    then fail_if (same (a.hmac_secret == "") (a.public_key_pem_file == "")) static_key_count
    else if a.mode == auth_mode_insecure
    then ok tt
    else err (unknown_mode a.mode)
  where
    same : Bool → Bool → Bool
    same true c = c
    same false c = not c

-- The inner loop, from the tenant at place `ti` on, with `tenantOwner`.
unfoldable pub validate_tenants :
    String → ℕ → List TenantConfig → Dict String → Result ConfigError (Dict String)
validate_tenants backend ti [] owners = ok owners
validate_tenants backend ti (t ∷ ts) owners = do
  fail_if (t.id == "") (id_required backend ti)
  owners' ← elim (lookup t.id owners) [
    | some owner ↦ err (duplicate_tenant t.id owner backend)
    | none ↦ ok (insert t.id backend owners)
  ]
  fail_if (is_empty t.groups) (no_groups backend t.id)
  validate_tenants backend (ti + 1) ts owners'

unfoldable pub validate_backend :
    ℕ → BackendConfig → Dict (Unit {0}) → Dict String → Result ConfigError (Dict String)
validate_backend i b names owners = do
  fail_if (b.name == "") (name_required i)
  fail_if (has b.name names) (duplicate_backend b.name)
  fail_if (b.url == "") (url_required b.name)
  fail_if
      (not (b.protocol_version == protocol_version_stateful)
        && not (b.protocol_version == protocol_version_stateless))
      (unknown_protocol b.name b.protocol_version)
  fail_if (is_empty b.tenants) (no_tenants b.name)
  validate_tenants b.name 0 b.tenants owners

-- The outer loop, from the backend at place `i` on, with `names`.
unfoldable pub validate_backends :
    ℕ → List BackendConfig → Dict (Unit {0}) → Dict String → Result ConfigError (Unit {0})
validate_backends i [] names owners = ok tt
validate_backends i (b ∷ bs) names owners = do
  owners' ← validate_backend i b names owners
  validate_backends (i + 1) bs (insert b.name tt names) owners'

unfoldable pub validate : Config → Result ConfigError (Unit {0})
validate c = do
  validate_auth c.auth
  fail_if (is_empty c.backends) no_backends
  validate_backends 0 c.backends [] []
