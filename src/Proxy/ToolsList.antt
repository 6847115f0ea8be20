-- ===== src/Proxy/ToolsList.antt =====
-- internal/proxy/handler.go: tools/list, the union of the catalogs of the caller's tenants.
pub mod Union
use mt_mcp_proxy.Base.{
  String, false, Option, none, some, List, [], ◌∷◌, ◌++◌, map, Result, ok, err, leb, length,
  if◌then◌else◌,
}
use mt_mcp_proxy.Base.Dict.{Dict, insert, lookup}
use mt_mcp_proxy.Base.Sort.{sort_by}
use mt_mcp_proxy.Json.{Json, num, str, object, array}
use mt_mcp_proxy.Http.{Request, RpcRequest}
use mt_mcp_proxy.Auth.{AuthError}
use mt_mcp_proxy.Registry.{Tenant, all_stateless, authorized_tenants, tenants}
use mt_mcp_proxy.Proxy.Mcp.{RawTool}
use mt_mcp_proxy.Proxy.Schema.{inject_tenant_arg, tenant_schema, list_instances_tool_def}
use mt_mcp_proxy.Proxy.World.{Env, World}
use mt_mcp_proxy.Proxy.Client.{ClientError}
use mt_mcp_proxy.Proxy.Catalog.{TenantTools, tool_name, tools_for}
use mt_mcp_proxy.Proxy.Route.{Response, write_rpc_error}
use mt_mcp_proxy.Proxy.ToolsCall.{Handler, write_result}

-- The three variables of the union: the names in first-seen order, the first definition of each,
-- and the ids of the tenants that have it.
pub record Merge : Type 0 where
  pub order : List String
  pub defs : Dict RawTool
  pub having : Dict (List String)

abbrev pub no_tools : Merge
no_tools = record { order = []; defs = []; having = [] }

abbrev pub ids_or_nil : Option (List String) → List String
ids_or_nil none = []
ids_or_nil (some ids) = ids

abbrev pub define : String → RawTool → Option RawTool → Merge → Merge
define name t (some seen) m = m
define name t none m = record m { order = m.order ++ name ∷ []; defs = insert name t m.defs }

-- One round of the inner loop.
unfoldable pub add_tool : String → RawTool → Merge → Merge
unfolding tool_name
add_tool id t m =
    let name = tool_name t in
    let m' = define name t (lookup name m.defs) m in
    record m' { having = insert name (ids_or_nil (lookup name m.having) ++ id ∷ []) m'.having }

unfoldable pub add_tools : String → List RawTool → Merge → Merge
unfolding add_tool
add_tools id [] m = m
add_tools id (t ∷ ts) m = add_tools id ts (add_tool id t m)

unfoldable pub merge_views : List TenantTools → Merge → Merge
unfolding add_tools
merge_views [] m = m
merge_views (v ∷ vs) m = merge_views vs (add_tools v.tenant.id v.tools m)

-- Whether the caller is unknown, has one tenant, or several.
pub data Selector : Type 0 where
  discovery single several : Selector

abbrev pub selector : List Tenant → Selector
selector [] = discovery
selector (t ∷ []) = single
selector (t ∷ u ∷ ts) = several

-- The tenant argument that a tool gets.
unfoldable pub with_selector : Selector → List String → RawTool → RawTool
unfolding inject_tenant_arg tenant_schema
with_selector discovery ids t = inject_tenant_arg t (tenant_schema [] false) false
with_selector single ids t = t
with_selector several ids t =
    inject_tenant_arg t (tenant_schema ids (leb 2 (length ids))) (leb 2 (length ids))

abbrev tool_or_nil : Option RawTool → RawTool
tool_or_nil none = []
tool_or_nil (some t) = t

unfoldable pub listed_tool : Selector → Merge → String → RawTool
unfolding with_selector
listed_tool s m name =
    with_selector s (ids_or_nil (lookup name m.having)) (tool_or_nil (lookup name m.defs))

unfoldable pub listed_tools : Selector → List TenantTools → List RawTool
unfolding listed_tool merge_views list_instances_tool_def
listed_tools s views =
    let m = merge_views views no_tools in
    map (listed_tool s m) m.order ++ list_instances_tool_def ∷ []

abbrev pub authorized_of : Handler → Result AuthError (List String) → List Tenant
authorized_of hd (err e) = []
authorized_of hd (ok groups) = authorized_tenants hd.registry groups

-- The tenants whose catalogs are asked for: all of them for a caller who has none.
abbrev pub listed_tenants : Handler → List Tenant → List Tenant
listed_tenants hd [] = sort_by (λ t. t.id) (tenants hd.registry)
listed_tenants hd (t ∷ ts) = t ∷ ts

abbrev list_result_of : Handler → List RawTool → Json
list_result_of hd out =
    let result : Dict Json = ("tools", array (map object out)) ∷ [] in
    if all_stateless hd.registry
    then object (
        result
        ++ ("cacheScope", str "private") ∷ ("resultType", str "complete") ∷ ("ttlMs", num "0") ∷ [])
    else object result

abbrev pub list_response :
    Env
    → Handler
    → Dict String
    → Option Json
    → Selector
    → Result (List ClientError) (List TenantTools)
    → Response
list_response env hd h id s (err errs) =
    write_rpc_error env h id "-32603" "failed to load tool catalog"
list_response env hd h id s (ok views) =
    write_result env h id (list_result_of hd (listed_tools s views))

-- `handleToolsList`
unfoldable pub handle_tools_list :
    Env → Handler → Dict String → Request → RpcRequest → World → Response × World
unfolding authorized_tenants tenants tools_for listed_tools all_stateless
handle_tools_list env hd h r req w =
    let authorized = authorized_of hd (hd.verifier r) in
    let (views, w') = tools_for env (listed_tenants hd authorized) w in
    (list_response env hd h req.id (selector authorized) views, w')
