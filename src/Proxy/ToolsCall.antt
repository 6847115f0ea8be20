-- ===== src/Proxy/ToolsCall.antt =====
-- internal/proxy/handler.go: tools/call. A request is handled in one go; what the handler leaves in
-- the state is seen by the next one. Logging and spans are left out; the metrics of a call are its
-- attributes, returned beside the response.
pub mod Dispatch
pub mod Delivery
use Prim.Native.String.{◌++◌ as append}
use mt_mcp_proxy.Base.{
  ℕ, String, Bool, true, false, not, Option, none, some, List, [], ◌∷◌, ◌++◌, ◌==◌, Result, ok, err,
  is_empty, leb, length, if◌then◌else◌,
}
use mt_mcp_proxy.Base.Dict.{Dict, insert, lookup}
use mt_mcp_proxy.Json.{Json, null, bool, num, str, object, array}
use mt_mcp_proxy.Http.{Request, RpcRequest, Body, unreadable, malformed, decoded, header_get}
use mt_mcp_proxy.Config.{
  ServerConfig, AuthConfig, protocol_version_stateful, protocol_version_stateless,
}
use mt_mcp_proxy.Auth.{AuthError, unauthorized, insufficient_scope, other}
use mt_mcp_proxy.Observability.{ToolCallAttrs}
use mt_mcp_proxy.Registry.{Registry, Tenant, all_stateless, authorized_tenants, tenants}
use mt_mcp_proxy.Session
use mt_mcp_proxy.Session.{Session}
use mt_mcp_proxy.Proxy.Mcp.{
  RawTool, mcp_session_header, mcp_protocol_version_header, rpc_result, rpc_error, tool_result_text,
  is_notification, join,
}
use mt_mcp_proxy.Proxy.Schema.{
  ToolCallParams, unmarshal_call_params, strip_tenant_arg, list_instances_tool,
}
use mt_mcp_proxy.Proxy.Oauth.{metadata_url}
use mt_mcp_proxy.Proxy.ParamHeaders.{param_headers_for_tool}
use mt_mcp_proxy.Proxy.World.{Env, World, Catalogs, set_header}
use mt_mcp_proxy.Proxy.Catalog.{Cached, unknown, absent, found, cached_tool}
use mt_mcp_proxy.Proxy.Select.{select_tenant}
use mt_mcp_proxy.Proxy.Route.{
  Response, response, aborted, ResponseBody, no_body, json, write_json, write_http_error,
  write_rpc_error, Call, route_to_backend, teardown_all,
}

-- The parts of a `Handler` that do not change. A verifier is what `Groups` computes.
pub record Handler : Type 0 where
  pub verifier : Request → Result AuthError (List String)
  pub registry : Registry
  pub server_cfg : ServerConfig
  pub auth_cfg : AuthConfig

abbrev pub no_attrs : ToolCallAttrs
no_attrs = record {
  method = "tools/call";
  tool = "";
  tenant_id = "";
  backend = "";
  error_type = "";
}

-- What `handleToolsCall` leaves: the response, the recorded attributes, and the state.
abbrev pub Outcome : Type 0
Outcome = Response × ToolCallAttrs × World

unfoldable pub statelessize : Handler → Dict Json → Json
unfolding all_stateless
statelessize hd result =
    if all_stateless hd.registry
    then object (insert "resultType" (str "complete") result)
    else object result

abbrev pub write_result : Env → Dict String → Option Json → Json → Response
write_result env h id result = write_json env h 200 (json (rpc_result id result))

abbrev scope_text : Handler → String
scope_text hd = join " " hd.auth_cfg.scopes_supported

abbrev forbidden_header : Handler → Request → String
forbidden_header hd r = append "Bearer error=\"insufficient_scope\", scope=\"" (
    append (scope_text hd) (
      append "\", resource_metadata=\""
        (append (metadata_url hd.server_cfg r) "\", error_description=\"insufficient scope\"")))

abbrev unauthorized_header : Handler → Request → String
unauthorized_header hd r =
    let base = append "Bearer resource_metadata=\"" (append (metadata_url hd.server_cfg r) "\"") in
    if is_empty hd.auth_cfg.scopes_supported
    then base
    else append base (append ", scope=\"" (append (scope_text hd) "\""))

-- The answer to an error of the verifier.
unfoldable pub auth_failure :
    Env → Handler → Dict String → Request → Option Json → AuthError → World → Outcome
unfolding join
auth_failure env hd h r id insufficient_scope w = (
  write_http_error env (set_header env "WWW-Authenticate" (forbidden_header hd r) h) 403 id "-32001"
      "forbidden: insufficient scope",
  record no_attrs { error_type = "insufficient_scope" },
  w,
)
auth_failure env hd h r id (unauthorized reason) w = (
  write_http_error env (set_header env "WWW-Authenticate" (unauthorized_header hd r) h) 401 id
      "-32001" "unauthorized: a valid token is required for tool calls",
  record no_attrs { error_type = "unauthorized" },
  w,
)
auth_failure env hd h r id other w = (
  write_http_error env h 500 id "-32603" "internal error",
  record no_attrs { error_type = "auth_error" },
  w,
)

abbrev instance_lines : List Tenant → String
instance_lines [] = ""
instance_lines (t ∷ ts) = append "- " (
    append t.id (
      append " (authorized via groups: "
        (append (join ", " t.groups) (append ")\n" (instance_lines ts)))))

abbrev instances_text : List Tenant → String
instances_text [] = "You are not authorized to access any instances."
instances_text (t ∷ ts) =
    append "You are authorized to access the following instances (tenants):\n"
      (instance_lines (t ∷ ts))

unfoldable pub write_instances : Env → Handler → Dict String → Option Json → List Tenant → Response
unfolding statelessize join
write_instances env hd h id tenants =
    write_result env h id (statelessize hd (tool_result_text (instances_text tenants) false))

abbrev headers_for_cached : Env → Cached → Option Json → Dict String
headers_for_cached env (found tool) args = param_headers_for_tool env tool args
headers_for_cached env unknown args = []
headers_for_cached env absent args = []

-- `paramHeadersForCall`
unfoldable pub param_headers_for_call : Env → Catalogs → Tenant → String → Option Json → Dict String
unfolding cached_tool param_headers_for_tool
param_headers_for_call env cs tenant tool_name args =
    headers_for_cached env (cached_tool cs tenant.id tool_name) args

abbrev pub is_aborted : Response → Bool
is_aborted aborted = true
is_aborted _ = false

abbrev pub routed : ToolCallAttrs → (Bool × Response) × World → Outcome
routed attrs ((true, resp), w) = (resp, attrs, w)
routed attrs ((false, resp), w) =
    (resp, record attrs { error_type = (if is_aborted resp then "" else "backend_error") }, w)

-- The prepared call, once the tenant argument is stripped.
abbrev pub prepared : Env → Catalogs → Option Json → Tenant → ToolCallParams → Json → Call
prepared env cs id tenant params clean = record {
  id = id;
  tenant = tenant;
  request = record { method = "tools/call"; params = some clean; id = id };
  tool_name = params.name;
  param_headers = param_headers_for_call env cs tenant params.name params.arguments;
}

abbrev pub strip_and_route :
    Env
    → Handler
    → Dict String
    → Request
    → Option Json
    → Tenant
    → ToolCallParams
    → ToolCallAttrs
    → Option Json
    → World
    → Outcome
strip_and_route env hd h r id tenant params attrs none w = (
  write_rpc_error env h id "-32602" "invalid arguments",
  record attrs { error_type = "invalid_params" },
  w,
)
strip_and_route env hd h r id tenant params attrs (some clean) w =
    routed attrs (route_to_backend env h r (prepared env w.catalogs id tenant params clean) w)

abbrev pub strip_params : Option Json → Option Json
strip_params none = none
strip_params (some params) = strip_tenant_arg params

-- The tenant is selected, or not.
unfoldable pub call_selected :
    Env
    → Handler
    → Dict String
    → Request
    → RpcRequest
    → ToolCallParams
    → Result String Tenant
    → World
    → Outcome
unfolding statelessize
call_selected env hd h r req params (err msg) w = (
  write_result env h req.id (statelessize hd (tool_result_text msg true)),
  record no_attrs { tool = params.name; error_type = "tenant_selection" },
  w,
)
call_selected env hd h r req params (ok tenant) w =
    strip_and_route env hd h r req.id tenant params
      (record no_attrs { tool = params.name; tenant_id = tenant.id; backend = tenant.backend.name })
      (strip_params req.params) w

unfoldable pub call_tool_named :
    Env
    → Handler
    → Dict String
    → Request
    → RpcRequest
    → List String
    → ToolCallParams
    → World
    → Outcome
call_tool_named env hd h r req groups params w =
    let authorized = authorized_tenants hd.registry groups in
    if params.name == list_instances_tool
    then (write_instances env hd h req.id authorized, record no_attrs { tool = params.name }, w)
    else call_selected env hd h r req params
        (select_tenant env hd.registry w.catalogs params.name params.arguments groups authorized) w

unfoldable pub call_params :
    Env
    → Handler
    → Dict String
    → Request
    → RpcRequest
    → List String
    → Option ToolCallParams
    → World
    → Outcome
call_params env hd h r req groups none w = (
  write_rpc_error env h req.id "-32602" "invalid tools/call params",
  record no_attrs { error_type = "invalid_params" },
  w,
)
call_params env hd h r req groups (some params) w = call_tool_named env hd h r req groups params w

abbrev pub call_verified :
    Env
    → Handler
    → Dict String
    → Request
    → RpcRequest
    → Result AuthError (List String)
    → World
    → Outcome
call_verified env hd h r req (err e) w = auth_failure env hd h r req.id e w
call_verified env hd h r req (ok groups) w =
    call_params env hd h r req groups (unmarshal_call_params req.params) w

-- `handleToolsCall`
unfoldable pub handle_tools_call :
    Env → Handler → Dict String → Request → RpcRequest → World → Outcome
handle_tools_call env hd h r req w = call_verified env hd h r req (hd.verifier r) w
