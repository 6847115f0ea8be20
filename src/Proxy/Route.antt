-- ===== src/Proxy/Route.antt =====
-- internal/proxy/handler.go: a prepared tools/call on its way to the tenant's backend, and the
-- teardown of backend sessions.
pub mod Sent
pub mod Steady
pub mod Quiet
pub mod Sessions
pub mod Provenance
pub mod Isolation
use mt_mcp_proxy.Base.{
  ℕ, String, Bool, true, false, not, Option, none, some, List, [], ◌∷◌, ◌==◌, Result, ok, err,
  if◌then◌else◌,
}
use mt_mcp_proxy.Base.Dict.{Dict, insert, lookup}
use mt_mcp_proxy.Json.{Json}
use mt_mcp_proxy.Http.{Request, RpcRequest, header_get}
use mt_mcp_proxy.Registry.{Tenant, effective_credential, stateless}
use mt_mcp_proxy.Session
use mt_mcp_proxy.Session.{Session, Store, backend_sid_of}
use mt_mcp_proxy.Proxy.Mcp.{mcp_session_header, rpc_error}
use mt_mcp_proxy.Proxy.ParamHeaders.{merge_headers}
use mt_mcp_proxy.Proxy.World.{Env, World, Outgoing, set_header, do_request}
use mt_mcp_proxy.Proxy.Client.{
  ClientError, panics, initialize, notify_initialized, call_tool, apply_auth,
}
use mt_mcp_proxy.Proxy.Catalog.{default_init_params}

pub data ResponseBody : Type 0 where
  no_body : ResponseBody
  json : Json → ResponseBody
  -- the bytes that a backend returned
  raw : String → ResponseBody

-- `aborted` is what `net/http` makes of a handler that panics.
pub data Response : Type 0 where
  response : ℕ → Dict String → ResponseBody → Response
  aborted : Response

-- `h` holds the headers that the response writer has so far.
abbrev pub write_json : Env → Dict String → ℕ → ResponseBody → Response
write_json env h status body =
    response status (set_header env "Content-Type" "application/json" h) body

-- `writeHTTPError`, and `writeRPCError` with the status 200.
abbrev pub write_http_error : Env → Dict String → ℕ → Option Json → String → String → Response
write_http_error env h status id code msg = write_json env h status (json (rpc_error id code msg))

abbrev pub write_rpc_error : Env → Dict String → Option Json → String → String → Response
write_rpc_error env h id code msg = write_http_error env h 200 id code msg

-- The call that is forwarded, and what surrounds it.
pub record Call : Type 0 where
  pub id : Option Json
  pub tenant : Tenant
  pub request : RpcRequest
  pub tool_name : String
  pub param_headers : Dict String

-- The answer to `callTool`; the flag says whether the call succeeded.
abbrev answer : Env → Dict String → Option Json → Result ClientError String → Bool × Response
answer env h id (ok bytes) = (true, write_json env h 200 (raw bytes))
answer env h id (err panics) = (false, aborted)
answer env h id (err e) = (false, write_rpc_error env h id "-32003" "backend call failed")

abbrev pub headers_of : Call → Dict String
headers_of c = merge_headers c.tenant.headers c.param_headers

-- `callTool` on a backend session, which is "" for a stateless backend.
unfoldable pub forward : Env → Dict String → Call → String → World → (Bool × Response) × World
unfolding merge_headers effective_credential
forward env h c session_id w =
    let (r, w') =
      call_tool env c.tenant.backend session_id (effective_credential c.tenant) c.request
        (headers_of c) c.tool_name w in
    (answer env h c.id r, w')

-- What follows the lazy `initialize` of a backend session.
abbrev pub opened :
    Env
    → Dict String
    → Call
    → String
    → Result ClientError String
    → World
    → (Bool × Response) × World
opened env h c proxy_sid (err e) w =
    ((false, write_rpc_error env h c.id "-32002" "failed to open backend session"), w)
opened env h c proxy_sid (ok sid) w =
    let w' =
      if not (sid == "")
      then notify_initialized env c.tenant.backend sid (effective_credential c.tenant) w
      else w in
    forward env h c sid
      (record w' { store = Session.set_backend_sid proxy_sid c.tenant.id sid w'.now w'.store })

-- The backend session of the tenant, opened where there is none.
unfoldable pub with_session :
    Env → Dict String → Call → String → Option String → World → (Bool × Response) × World
unfolding effective_credential
with_session env h c proxy_sid (some sid) w = forward env h c sid w
with_session env h c proxy_sid none w =
    let (r, w') =
      initialize env c.tenant.backend default_init_params (effective_credential c.tenant) w in
    opened env h c proxy_sid r w'

-- The client's session, if the store has it.
unfoldable pub in_session :
    Env → Dict String → Call → String → Option Session → World → (Bool × Response) × World
unfolding backend_sid_of
in_session env h c proxy_sid none w =
    ((false, write_rpc_error env h c.id "-32000" "session not found; call initialize first"), w)
in_session env h c proxy_sid (some sess) w =
    with_session env h c proxy_sid (backend_sid_of sess c.tenant.id) w

-- `routeToBackend`
unfoldable pub route_to_backend :
    Env → Dict String → Request → Call → World → (Bool × Response) × World
unfolding stateless header_get
route_to_backend env h r c w =
    if stateless c.tenant.backend
    then forward env h c "" w
    else (let proxy_sid = header_get r.headers (env.canonical mcp_session_header) in
        let (sess, store') = Session.get proxy_sid w.now w.store in
        in_session env h c proxy_sid sess (record w { store = store' }))

-- The request that `teardownBackend` sends.
unfoldable pub teardown_request : Env → Tenant → String → Outgoing
unfolding apply_auth effective_credential
teardown_request env t backend_sid = record {
  method = "DELETE";
  url = t.backend.url;
  headers =
      apply_auth env t.backend (effective_credential t) []
        (set_header env mcp_session_header backend_sid []);
  body = none;
}

-- The goroutine that `handleDelete` starts for one tenant; its answer is dropped.
unfoldable pub teardown_backend : Env → Tenant → String → World → World
unfolding teardown_request do_request
teardown_backend env t backend_sid w = (do_request env (teardown_request env t backend_sid) w).1

abbrev pub teardown_tenant : Env → Tenant → Option String → World → World
teardown_tenant env t none w = w
teardown_tenant env t (some sid) w = if not (sid == "") then teardown_backend env t sid w else w

-- The loop of `handleDelete`. The goroutines run in some order; here it is that of the loop.
unfoldable pub teardown_all : Env → Session → List Tenant → World → World
unfolding teardown_backend backend_sid_of
teardown_all env sess [] w = w
teardown_all env sess (t ∷ ts) w =
    teardown_all env sess ts (teardown_tenant env t (backend_sid_of sess t.id) w)
