-- ===== src/Registry.antt =====
-- internal/registry/registry.go: tenants, the backends that serve them, and who may select them.
-- Pointers to a backend are never written through after `New`, so a tenant holds its backend.
pub mod Build
pub mod Authorize
pub mod Backends
pub mod Complete
pub mod UrlErrors
pub mod Refines
mod Tests
use mt_mcp_proxy.Base.{
  String, Bool, true, false, not, ◌&&◌, ◌||◌, Option, none, some, List, [], ◌∷◌, ◌++◌, ◌==◌, Result,
  ok, err, ◌>>=◌, if◌then◌else◌, contains, keep, any, all, is_empty,
}
use mt_mcp_proxy.Base.Dict.{Dict, lookup, insert, has, values}
use mt_mcp_proxy.Base.Sort.{sort_by}
use mt_mcp_proxy.Config.{
  BackendConfig, TenantConfig, protocol_version_stateful, protocol_version_stateless, or_default,
}

-- `net/url.URL`, as far as the program looks at it.
pub record Url : Type 0 where
  pub scheme : String
  pub host : String
  pub text : String

pub record Backend : Type 0 where
  pub name : String
  pub url : Url
  pub headers : Dict String
  pub credential : String
  pub credential_header : String
  pub credential_scheme : String
  pub protocol_version : String

pub record Tenant : Type 0 where
  pub id : String
  pub groups : List String
  pub headers : Dict String
  pub credential : String
  pub backend : Backend

unfoldable pub stateless : Backend → Bool
stateless b = b.protocol_version == protocol_version_stateless

unfoldable pub effective_credential : Tenant → String
effective_credential t = if not (t.credential == "") then t.credential else t.backend.credential

pub record Registry : Type 0 where
  pub by_tenant : Dict Tenant
  pub backends : List Backend

pub data Error : Type 0 where
  invalid_url not_absolute duplicate_tenant unknown_tenant : String → Error
  no_tenants : Error

abbrev pub default_scheme : Option String → String
default_scheme none = "Bearer"
default_scheme (some s) = s

-- The `&Backend{...}` that `New` builds.
abbrev pub new_backend : BackendConfig → Url → Backend
new_backend bc u = record {
  name = bc.name;
  url = u;
  headers = bc.headers;
  credential = bc.credential;
  credential_header = or_default bc.credential_header "Authorization";
  credential_scheme = default_scheme bc.credential_scheme;
  protocol_version = or_default bc.protocol_version protocol_version_stateful;
}

abbrev pub new_tenant : Backend → TenantConfig → Tenant
new_tenant b tc = record {
  id = tc.id;
  groups = tc.groups;
  headers = tc.headers;
  credential = tc.credential;
  backend = b;
}

-- The inner loop of `New`, over the tenants of one backend.
unfoldable pub add_tenants : Backend → List TenantConfig → Dict Tenant → Result Error (Dict Tenant)
add_tenants b [] m = ok m
add_tenants b (tc ∷ tcs) m =
    if has tc.id m
    then err (duplicate_tenant tc.id)
    else add_tenants b tcs (insert tc.id (new_tenant b tc) m)

abbrev pub empty : Registry
empty = record { by_tenant = []; backends = [] }

-- `url.Parse` is a parameter: `none` is its error.
module _ (parse_url : String → Option Url) where
  unfoldable pub backend_url : BackendConfig → Result Error Url
  backend_url bc = elim (parse_url bc.url) [
    | none ↦ err (invalid_url bc.name)
    | some u ↦ if u.scheme == "" || u.host == "" then err (not_absolute bc.name) else ok u
  ]

  -- The outer loop of `New`.
  unfoldable pub add_backends : List BackendConfig → Registry → Result Error Registry
  add_backends [] r = ok r
  add_backends (bc ∷ bcs) r = do
    u ← backend_url bc
    m ← add_tenants (new_backend bc u) bc.tenants r.by_tenant
    add_backends bcs (record { by_tenant = m; backends = r.backends ++ new_backend bc u ∷ [] })

  unfoldable pub new : List BackendConfig → Result Error Registry
  unfolding add_backends
  new backends = do
    r ← add_backends backends empty
    if is_empty r.by_tenant then err no_tenants else ok r

unfoldable pub all_stateless : Registry → Bool
unfolding stateless
all_stateless r = all stateless r.backends && not (is_empty r.backends)

unfoldable pub tenants : Registry → List Tenant
unfolding values
tenants r = values r.by_tenant

unfoldable pub resolve_tenant : Registry → String → Result Error Tenant
resolve_tenant r id = elim (lookup id r.by_tenant) [
  | none ↦ err (unknown_tenant id)
  | some t ↦ ok t
]

-- Some group of the tenant is among the caller's groups; the loop breaks at the first.
unfoldable pub is_authorized : Tenant → List String → Bool
is_authorized t groups = any (contains groups) t.groups

unfoldable pub authorized_tenants : Registry → List String → List Tenant
authorized_tenants r groups =
    sort_by (λ t. t.id) (keep (λ t. any (contains groups) t.groups) (values r.by_tenant))
