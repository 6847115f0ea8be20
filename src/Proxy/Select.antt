-- ===== src/Proxy/Select.antt =====
-- internal/proxy/handler.go: which tenant a tools/call goes to.
pub mod Laws
use Prim.Native.String.{◌++◌ as append}
use mt_mcp_proxy.Base.{
  String, Bool, true, false, not, Option, none, some, List, [], ◌∷◌, ◌==◌, map, Result, ok, err,
  is_empty, keep, if◌then◌else◌,
}
use mt_mcp_proxy.Base.Sort.{sort_by}
use mt_mcp_proxy.Json.{Json}
use mt_mcp_proxy.Registry
use mt_mcp_proxy.Registry.{Registry, Tenant, resolve_tenant, is_authorized}
use mt_mcp_proxy.Proxy.Mcp.{join}
use mt_mcp_proxy.Proxy.Schema.{tenant_arg, extract_tenant_arg}
use mt_mcp_proxy.Proxy.World.{Env, Catalogs}
use mt_mcp_proxy.Proxy.Catalog.{Cached, unknown, absent, found, cached_tool}

unfoldable pub tenant_list : List Tenant → String
unfolding join
tenant_list tenants = join ", " (sort_by (λ s. s) (map (λ t. t.id) tenants))

-- `found || !known`
abbrev pub may_have : Cached → Bool
may_have unknown = true
may_have absent = false
may_have (found t) = true

unfoldable pub tenants_with_tool : Catalogs → String → List Tenant → List Tenant
tenants_with_tool cs tool candidates = keep (λ t. may_have (cached_tool cs t.id tool)) candidates

abbrev pub others : Catalogs → String → Tenant → List Tenant → List Tenant
others cs tool tenant authorized =
    keep (λ t. not (t.id == tenant.id)) (tenants_with_tool cs tool authorized)

-- The message that `tenant` is known not to have the tool, naming those that may.
abbrev pub unavailable_text : Env → Catalogs → String → Tenant → List Tenant → String
unavailable_text env cs tool tenant authorized =
    let msg =
      append "tool "
        (append (env.quote tool) (append " is not available for tenant " (env.quote tenant.id))) in
    if is_empty (others cs tool tenant authorized)
    then msg
    else append msg
        (append "; it is available on: " (tenant_list (others cs tool tenant authorized)))

-- `unavailable`: `none` is the empty message.
unfoldable pub unavailable : Env → Catalogs → String → Tenant → List Tenant → Option String
unfolding tenants_with_tool
unavailable env cs tool tenant authorized =
    if may_have (cached_tool cs tenant.id tool)
    then none
    else some (unavailable_text env cs tool tenant authorized)

abbrev pub or_unavailable : Option String → Tenant → Result String Tenant
or_unavailable none tenant = ok tenant
or_unavailable (some msg) tenant = err msg

abbrev pub choose_one : Env → String → String → List Tenant → String
choose_one env prefix explicit authorized =
    append prefix
      (append (env.quote explicit) (append "; choose one of: " (tenant_list authorized)))

abbrev select_resolved :
    Env
    → Catalogs
    → String
    → String
    → List String
    → List Tenant
    → Result Registry.Error Tenant
    → Result String Tenant
select_resolved env cs tool explicit groups authorized (err e) =
    err (choose_one env "unknown tenant " explicit authorized)
select_resolved env cs tool explicit groups authorized (ok tenant) =
    if not (is_authorized tenant groups)
    then err (choose_one env "not authorized for tenant " explicit authorized)
    else or_unavailable (unavailable env cs tool tenant authorized) tenant

-- A tenant that the call names.
unfoldable pub select_explicit :
    Env → Registry → Catalogs → String → String → List String → List Tenant → Result String Tenant
select_explicit env reg cs tool explicit groups authorized =
    select_resolved env cs tool explicit groups authorized (resolve_tenant reg explicit)

abbrev select_candidate : Env → String → List Tenant → List Tenant → Result String Tenant
select_candidate env tool authorized [] = err (
    append "tool " (
      append (env.quote tool)
        (append " is not available on any of your instances: " (tenant_list authorized))))
select_candidate env tool authorized (t ∷ []) = ok t
select_candidate env tool authorized (t ∷ u ∷ ts) = err (
    append "multiple instances available; pass the "
      (append (env.quote tenant_arg) (append " argument, one of: " (tenant_list (t ∷ u ∷ ts)))))

-- A call that names no tenant.
unfoldable pub select_implicit : Env → Catalogs → String → List Tenant → Result String Tenant
unfolding unavailable tenants_with_tool
select_implicit env cs tool [] = err "no instances are authorized for your token"
select_implicit env cs tool (t ∷ []) = or_unavailable (unavailable env cs tool t (t ∷ [])) t
select_implicit env cs tool (t ∷ u ∷ ts) =
    select_candidate env tool (t ∷ u ∷ ts) (tenants_with_tool cs tool (t ∷ u ∷ ts))

unfoldable pub select_tenant :
    Env
    → Registry
    → Catalogs
    → String
    → Option Json
    → List String
    → List Tenant
    → Result String Tenant
select_tenant env reg cs tool args groups authorized =
    let explicit = extract_tenant_arg args in
    if not (explicit == "")
    then select_explicit env reg cs tool explicit groups authorized
    else select_implicit env cs tool authorized
