-- ===== src/Fixtures.antt =====
-- The deployment that the tests run on: two backends with three tenants, and a network that
-- answers every request alike.
use mt_mcp_proxy.Base.{String, true, Option, none, some, List, [], ◌∷◌, Result, ok}
use mt_mcp_proxy.Json.{Json, str, object}
use mt_mcp_proxy.Config.{
  protocol_version_stateless, BackendConfig, TenantConfig, ServerConfig, AuthConfig, Config,
  auth_mode_jwks, auth_mode_static, protocol_version_stateful,
}
use mt_mcp_proxy.Http.{Request, RpcRequest, decoded}
use mt_mcp_proxy.Auth.{AuthError}
use mt_mcp_proxy.Registry.{Url, Backend, Tenant, Registry, new_backend, new_tenant}
use mt_mcp_proxy.Session.{pos}
use mt_mcp_proxy.Proxy.World.{Env, World}
use mt_mcp_proxy.Proxy.ToolsCall.{Handler}

abbrev pub parse_any : String → Option Url
parse_any s = some (record { scheme = "https"; host = "example.org"; text = s })

abbrev url : String → Url
url s = record { scheme = "https"; host = "example.org"; text = s }

abbrev pub acme_config : TenantConfig
acme_config = record {
  id = "acme";
  groups = "dev" ∷ "ops" ∷ [];
  credential = "acme-token";
  headers = [];
}

abbrev pub zeta_config : TenantConfig
zeta_config = record {
  id = "zeta";
  groups = "ops" ∷ [];
  credential = "";
  headers = ("X-Org", "zeta") ∷ [];
}

abbrev pub gitlab_config : BackendConfig
gitlab_config = record {
  name = "gitlab";
  url = "https://example.org/gitlab";
  headers = [];
  credential = "shared-token";
  credential_header = "Private-Token";
  credential_scheme = some "";
  protocol_version = "";
  tenants = acme_config ∷ zeta_config ∷ [];
}

abbrev pub configs : List BackendConfig
configs = gitlab_config ∷ []

abbrev pub gitlab : Backend
gitlab = new_backend gitlab_config (url "https://example.org/gitlab")

abbrev pub acme : Tenant
acme = new_tenant gitlab acme_config

abbrev pub zeta : Tenant
zeta = new_tenant gitlab zeta_config

-- What `New` makes of the configuration.
abbrev pub deployed : Registry
deployed = record { by_tenant = ("acme", acme) ∷ ("zeta", zeta) ∷ []; backends = gitlab ∷ [] }

-- The same backend, of the stateless revision.
abbrev pub calm_config : BackendConfig
calm_config = record gitlab_config { protocol_version = protocol_version_stateless }

abbrev calm : Backend
calm = new_backend calm_config (url "https://example.org/gitlab")

abbrev pub calm_deployed : Registry
calm_deployed = record {
  by_tenant = ("acme", new_tenant calm acme_config) ∷ ("zeta", new_tenant calm zeta_config) ∷ [];
  backends = calm ∷ [];
}

-- Each answer carries a session id and takes a second.
abbrev pub net : Env
net = record {
  respond = λ log req. record {
    response =
        some (record { status = 200; headers = ("Mcp-Session-Id", "b-7") ∷ []; body = some "{}" });
    elapsed = 1;
  };
  canonical = λ k. k;
  quote = λ s. s;
  parse_json = λ s. some (object []);
  format_int = λ n. some n;
  base64 = λ s. s;
}

abbrev pub server : ServerConfig
server = record { listen = ":8080"; path = "/mcp"; external_url = "" }

abbrev auth : AuthConfig
auth = record {
  mode = auth_mode_jwks;
  groups_claim = "groups";
  issuer = "";
  audience = "";
  additional_audiences = [];
  scopes_supported = [];
  jwks_url = "";
  hmac_secret = "";
  public_key_pem_file = "";
}

-- Everyone is in the group `ops`.
abbrev pub ops : Request → Result AuthError (List String)
ops r = ok ("ops" ∷ [])

abbrev pub handler : Handler
handler = record { verifier = ops; registry = deployed; server_cfg = server; auth_cfg = auth }

abbrev pub call_of : Json → RpcRequest
call_of args = record {
  method = "tools/call";
  params = some (object (("name", str "search") ∷ ("arguments", args) ∷ []));
  id = some (str "1");
}

abbrev pub to_acme : RpcRequest
to_acme = call_of (object (("tenant", str "acme") ∷ ("q", str "x") ∷ []))

abbrev pub opening : RpcRequest
opening = record { method = "initialize"; params = none; id = some (str "0") }

abbrev pub posted : String → RpcRequest → Request
posted sid req = record {
  method = "POST";
  host = "proxy.example.org";
  tls = true;
  headers = ("Mcp-Session-Id", sid) ∷ [];
  body = decoded req;
}

abbrev pub start : World
start = record {
  store = record { m = []; ttl = pos 60 };
  catalogs = record { by_tenant = []; unique = [] };
  exchanged = [];
  now = 100;
}

-- A configuration as `Load` returns it.
abbrev pub usable_config : Config
usable_config = record {
  server = server;
  auth = record auth { mode = auth_mode_static; hmac_secret = "hush" };
  backends =
      record gitlab_config { credential = "s3cret"; protocol_version = protocol_version_stateful }
      ∷ [];
  observability = record { metrics_listen = ":9090"; metrics_path = "/metrics" };
}
