-- ===== src/Proxy/Serve.antt =====
-- internal/proxy/handler.go: `ServeHTTP` and the handlers that do not route a tool call.
pub mod Dispatch
pub mod Fresh
pub mod Sessions
pub mod Provenance
pub mod Stateless
use Prim.Native.String.{◌++◌ as append}
use mt_mcp_proxy.Base.{
  ℕ, ◌+◌, String, Bool, true, false, not, Option, none, some, List, [], ◌∷◌, ◌==◌, if◌then◌else◌,
}
use mt_mcp_proxy.Base.Dict.{Dict, insert}
use mt_mcp_proxy.Json.{Json, bool, num, str, object, array}
use mt_mcp_proxy.Http.{Request, RpcRequest, Body, unreadable, malformed, decoded, header_get}
use mt_mcp_proxy.Config.{protocol_version_stateful, protocol_version_stateless}
use mt_mcp_proxy.Observability.{ToolCallAttrs}
use mt_mcp_proxy.Registry.{all_stateless, tenants}
use mt_mcp_proxy.Session
use mt_mcp_proxy.Session.{Session}
use mt_mcp_proxy.Proxy.Mcp.{mcp_session_header, mcp_protocol_version_header, is_notification}
use mt_mcp_proxy.Proxy.World.{Env, World, set_header}
use mt_mcp_proxy.Proxy.Route.{Response, response, no_body, raw, write_rpc_error, teardown_all}
use mt_mcp_proxy.Proxy.ToolsCall.{Handler, handle_tools_call, statelessize, write_result}
use mt_mcp_proxy.Proxy.ToolsList.{handle_tools_list}

abbrev pub protocol_version : Handler → String
protocol_version hd =
    if all_stateless hd.registry then protocol_version_stateless else protocol_version_stateful

abbrev capabilities : Json
capabilities = object (("tools", object (("listChanged", bool false) ∷ [])) ∷ [])

unfoldable pub server_info_result : Handler → Json
unfolding all_stateless
server_info_result hd = object (
    ("protocolVersion", str (protocol_version hd))
    ∷ ("capabilities", capabilities)
    ∷ ("serverInfo", object (("name", str "mt-mcp-proxy") ∷ ("version", str "0") ∷ []))
    ∷ [])

unfoldable pub discover_result : Handler → Json
unfolding all_stateless
discover_result hd = object (
    ("cacheScope", str "public")
    ∷ ("capabilities", capabilities)
    ∷ ("resultType", str "complete")
    ∷ ("supportedVersions", array (str (protocol_version hd) ∷ []))
    ∷ ("ttlMs", num "0")
    ∷ [])

-- `handleInitialize`; `new_id` is what `newID` draws.
unfoldable pub handle_initialize :
    Env → Handler → Dict String → String → RpcRequest → World → Response × World
handle_initialize env hd h new_id req w =
    if all_stateless hd.registry
    then (write_result env h req.id (server_info_result hd), w)
    else (let (sess, store') = Session.mint new_id w.now w.store in
        (
          write_result env (set_header env mcp_session_header sess.id h) req.id
              (server_info_result hd),
          record w { store = store' },
        ))

unfoldable pub handle_discover : Env → Handler → Dict String → RpcRequest → Response
handle_discover env hd h req = write_result env h req.id (discover_result hd)

abbrev pub teardown_session : Env → Handler → Option Session → World → World
teardown_session env hd none w = w
teardown_session env hd (some sess) w = teardown_all env sess (tenants hd.registry) w

-- `handleDelete`
unfoldable pub handle_delete : Env → Handler → Request → World → Response × World
handle_delete env hd r w =
    if all_stateless hd.registry
    then (response 204 [] no_body, w)
    else (let (sess, store') =
          Session.delete_session (header_get r.headers (env.canonical mcp_session_header))
            w.store in
        (response 204 [] no_body, teardown_session env hd sess (record w { store = store' })))

-- What a request leaves: the response, the attributes of a recorded tools/call, whether it counts
-- as a session that was opened (`RecordSession`), and the state.
pub record Served : Type 0 where
  pub answer : Response
  pub recorded : Option ToolCallAttrs
  pub opens : Bool
  pub world : World

abbrev pub unrecorded : Response × World → Served
unrecorded (resp, w) = record { answer = resp; recorded = none; opens = false; world = w }

abbrev stamped : Env → Handler → Dict String
stamped env hd =
    if all_stateless hd.registry
    then set_header env mcp_protocol_version_header protocol_version_stateless []
    else []

abbrev pub served_call : Response × ToolCallAttrs × World → Served
served_call (resp, attrs, w) = record {
  answer = resp;
  recorded = some attrs;
  opens = false;
  world = w;
}

-- `handleInitialize` counts the session that it mints.
abbrev pub served_initialize : Handler → Response × World → Served
served_initialize hd (resp, w) = record {
  answer = resp;
  recorded = none;
  opens = not (all_stateless hd.registry);
  world = w;
}

-- The switch over the JSON-RPC method.
unfoldable pub serve_rpc :
    Env → Handler → Dict String → String → Request → RpcRequest → World → Served
unfolding is_notification
serve_rpc env hd h new_id r req w =
    if req.method == "initialize"
    then served_initialize hd (handle_initialize env hd h new_id req w)
    else if req.method == "notifications/initialized"
    then unrecorded (response 202 h no_body, w)
    else if req.method == "server/discover"
    then unrecorded (handle_discover env hd h req, w)
    else if req.method == "tools/list"
    then unrecorded (handle_tools_list env hd h r req w)
    else if req.method == "tools/call"
    then served_call (handle_tools_call env hd h r req w)
    else if req.method == "ping"
    then unrecorded (write_result env h req.id (statelessize hd []), w)
    else if is_notification req
    then unrecorded (response 202 h no_body, w)
    else unrecorded
        (write_rpc_error env h req.id "-32601" (append "method not found: " req.method), w)

unfoldable pub serve_post : Env → Handler → String → Request → Body → World → Served
serve_post env hd new_id r unreadable w =
    unrecorded (write_rpc_error env [] none "-32700" "failed to read request body", w)
serve_post env hd new_id r malformed w =
    unrecorded (write_rpc_error env [] none "-32700" "parse error", w)
serve_post env hd new_id r (decoded req) w = serve_rpc env hd (stamped env hd) new_id r req w

-- `ServeHTTP`; `http.Error` answers in plain text.
unfoldable pub serve_http : Env → Handler → String → Request → World → Served
serve_http env hd new_id r w =
    if r.method == "DELETE"
    then unrecorded (handle_delete env hd r w)
    else if r.method == "GET"
    then unrecorded (response 200 (set_header env "Content-Type" "text/event-stream" []) no_body, w)
    else if r.method == "POST"
    then serve_post env hd new_id r r.body w
    else unrecorded (
      response 405
          (set_header env "X-Content-Type-Options" "nosniff"
            (set_header env "Content-Type" "text/plain; charset=utf-8" []))
          (raw "method not allowed\n"),
      w,
    )

-- A request, how long after the one before it comes, and the id that is drawn if it opens a session.
pub record Arrival : Type 0 where
  pub wait : ℕ
  pub new_id : String
  pub request : Request

-- What a run of the server leaves: requests are handled one after the other.
unfoldable pub serve_all : Env → Handler → List Arrival → World → World
unfolding serve_http
serve_all env hd [] w = w
serve_all env hd (a ∷ rs) w =
    serve_all env hd rs
      (serve_http env hd a.new_id a.request (record w { now = w.now + a.wait })).world
