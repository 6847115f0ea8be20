-- ===== src/Proxy/Client.antt =====
-- internal/proxy/client.go: the requests that the proxy sends to one backend. Spans and the trace
-- headers of OpenTelemetry are left out.
pub mod Headers
pub mod Quiet
pub mod Steady
pub mod Precedence
pub mod Credential
use mt_mcp_proxy.Base.{
  ℕ, String, Bool, true, false, not, ◌&&◌, ◌||◌, Option, none, some, List, [], ◌∷◌, ◌++◌, ◌==◌,
  Result, ok, err, ltb, leb, if◌then◌else◌,
}
use Prim.Native.String.{◌++◌ as append}
use mt_mcp_proxy.Base.Dict.{Dict, lookup}
use mt_mcp_proxy.Json.{Json, null, num, obj, arr, Items, Fields, nil, cons, members}
use mt_mcp_proxy.Http.{RpcRequest, header_get}
use mt_mcp_proxy.Config.{protocol_version_stateless}
use mt_mcp_proxy.Registry.{Backend, Tenant, stateless}
use mt_mcp_proxy.Proxy.Mcp.{
  RawTool, mcp_session_header, mcp_protocol_version_header, mcp_method_header, mcp_name_header,
  decode_body,
}
use mt_mcp_proxy.Proxy.Schema.{inject_meta, struct_field}
use mt_mcp_proxy.Proxy.World.{Env, World, Outgoing, Incoming, set_header, do_request}

-- `for k, v := range m { req.Header.Set(k, v) }`
unfoldable pub set_headers : Env → Dict String → Dict String → Dict String
set_headers env [] h = h
set_headers env ((k, v) ∷ m) h = set_headers env m (set_header env k v h)

abbrev pub credential_value : Backend → String → String
credential_value b credential =
    if not (b.credential_scheme == "")
    then append b.credential_scheme (append " " credential)
    else credential

-- `applyAuth`, on the headers of the request
unfoldable pub apply_auth : Env → Backend → String → Dict String → Dict String → Dict String
unfolding set_headers
apply_auth env b credential extra h =
    let h' =
      if not (credential == "")
      then set_header env b.credential_header (credential_value b credential) h
      else h in
    set_headers env extra (set_headers env b.headers h')

abbrev set_if : Env → String → String → Dict String → Dict String
set_if env k v h = if not (v == "") then set_header env k v h else h

-- The headers that `post` sets before `applyAuth`.
unfoldable pub base_headers : Env → Backend → String → String → String → Dict String
unfolding stateless
base_headers env b session_id mcp_method mcp_name =
    let h =
      set_header env "Accept" "application/json, text/event-stream"
        (set_header env "Content-Type" "application/json" []) in
    if stateless b
    then set_if env mcp_name_header mcp_name (
        set_if env mcp_method_header mcp_method
          (set_header env mcp_protocol_version_header protocol_version_stateless h))
    else set_if env mcp_session_header session_id h

-- The request that `post` sends.
unfoldable pub post_request :
    Env → Backend → RpcRequest → String → String → Dict String → String → String → Outgoing
unfolding base_headers apply_auth
post_request env b payload session_id credential extra mcp_method mcp_name = record {
  method = "POST";
  url = b.url;
  headers = apply_auth env b credential extra (base_headers env b session_id mcp_method mcp_name);
  body = some payload;
}

pub data ClientError : Type 0 where
  transport bad_status undecodable bad_response rpc_failed bad_request : ClientError
  -- not an error value: the goroutine panics
  panics : ClientError

abbrev decoded : Option String → String → Result ClientError (String × String)
decoded none sid = err undecodable
decoded (some body) sid = ok (body, sid)

abbrev decode_response : String → String → Option String → Result ClientError (String × String)
decode_response content_type sid none = err undecodable
decode_response content_type sid (some body) = decoded (decode_body content_type body) sid

-- What `post` makes of the response: the payload, and the session id of the response.
unfoldable pub post_response : Env → Option Incoming → Result ClientError (String × String)
unfolding decode_body header_get
post_response env none = err transport
post_response env (some resp) =
    if ltb resp.status 200 || leb 300 resp.status
    then err bad_status
    else decode_response (header_get resp.headers "Content-Type")
        (header_get resp.headers (env.canonical mcp_session_header)) resp.body

unfoldable pub post :
    Env
    → Backend
    → RpcRequest
    → String
    → String
    → Dict String
    → String
    → String
    → World
    → Result ClientError (String × String) × World
unfolding do_request
post env b payload session_id credential extra mcp_method mcp_name w =
    let (resp, w') =
      do_request env (post_request env b payload session_id credential extra mcp_method mcp_name)
        w in
    (post_response env resp, w')

abbrev pub init_request : Json → RpcRequest
init_request params = record { method = "initialize"; params = some params; id = some (num "1") }

-- The members `result` and `error` of a response that is an object, or `null`.
abbrev rpc_members : Json → Option (Option Json × Option Json)
rpc_members (obj fs) = some (struct_field "result" fs, struct_field "error" fs)
rpc_members null = some (none, none)
rpc_members _ = none

abbrev pub parse_rpc : Env → String → Option (Option Json × Option Json)
parse_rpc env body = elim (env.parse_json body) [ none ↦ none | some v ↦ rpc_members v ]

abbrev init_result : String → Option (Option Json × Option Json) → Result ClientError String
init_result sid none = err bad_response
init_result sid (some (result, some e)) = err rpc_failed
init_result sid (some (result, none)) = ok sid

abbrev pub init_response : Env → Result ClientError (String × String) → Result ClientError String
init_response env (err e) = err e
init_response env (ok (body, sid)) = init_result sid (parse_rpc env body)

-- `initialize`: the backend's session id. Its callers drop the result.
unfoldable pub initialize :
    Env → Backend → Json → String → World → Result ClientError String × World
unfolding struct_field
initialize env b init_params credential w =
    let (r, w') = post env b (init_request init_params) "" credential [] "initialize" "" w in
    (init_response env r, w')

abbrev pub initialized_note : RpcRequest
initialized_note = record { method = "notifications/initialized"; params = none; id = none }

-- `notifyInitialized` ignores what comes back.
unfoldable pub notify_initialized : Env → Backend → String → String → World → World
notify_initialized env b session_id credential w =
    (post env b initialized_note session_id credential [] "notifications/initialized" "" w).1

abbrev as_tools : Items → Option (List RawTool)
as_tools nil = some []
as_tools (cons (obj fs) vs) = elim (as_tools vs) [ none ↦ none | some ts ↦ some (members fs ∷ ts) ]
as_tools (cons null vs) = elim (as_tools vs) [ none ↦ none | some ts ↦ some ([] ∷ ts) ]
as_tools (cons v vs) = none

-- The member `tools` of a result (`toolsListResult`): `none` is a type error, and a nil slice is
-- told from an empty one.
abbrev pub tools_member : Option Json → Option (Option (List RawTool))
tools_member none = some none
tools_member (some null) = some none
tools_member (some (arr vs)) = elim (as_tools vs) [ none ↦ none | some ts ↦ some (some ts) ]
tools_member (some v) = none

abbrev pub tools_of : Option Json → Option (Option (List RawTool))
tools_of none = some none
tools_of (some null) = some none
tools_of (some (obj fs)) = tools_member (struct_field "tools" fs)
tools_of (some v) = none

abbrev list_checked :
    Option Json → Option (Option (List RawTool)) → Result ClientError (Option (List RawTool))
list_checked e none = err bad_response
list_checked (some e) (some ts) = err rpc_failed
list_checked none (some ts) = ok ts

abbrev list_result : Option (Option Json × Option Json) → Result ClientError (Option (List RawTool))
list_result none = err bad_response
list_result (some (result, e)) = list_checked e (tools_of result)

abbrev list_response :
    Env → Result ClientError (String × String) → Result ClientError (Option (List RawTool))
list_response env (err e) = err e
list_response env (ok (body, sid)) = list_result (parse_rpc env body)

abbrev pub list_request : Backend → RpcRequest
list_request b = record {
  method = "tools/list";
  params = if stateless b then inject_meta none else none;
  id = some (num "2");
}

unfoldable pub list_tools :
    Env
    → Backend
    → String
    → String
    → Dict String
    → World
    → Result ClientError (Option (List RawTool)) × World
unfolding struct_field
list_tools env b session_id credential headers w =
    let (r, w') = post env b (list_request b) session_id credential headers "tools/list" "" w in
    (list_response env r, w')

abbrev payload_of : Result ClientError (String × String) → Result ClientError String
payload_of (err e) = err e
payload_of (ok (body, sid)) = ok body

abbrev post_call :
    Env
    → Backend
    → RpcRequest
    → String
    → String
    → Dict String
    → String
    → World
    → Result ClientError String × World
post_call env b req session_id credential headers tool_name w =
    let (r, w') = post env b req session_id credential headers "tools/call" tool_name w in
    (payload_of r, w')

abbrev pub call_stateless :
    Env
    → Backend
    → RpcRequest
    → Option Json
    → String
    → String
    → Dict String
    → String
    → World
    → Result ClientError String × World
call_stateless env b req none session_id credential headers tool_name w = (err panics, w)
call_stateless env b req (some params) session_id credential headers tool_name w =
    post_call env b (record req { params = some params }) session_id credential headers tool_name w

-- `callTool`. A request that the proxy has marshalled itself parses again, so the branch for a bad
-- request is not taken.
unfoldable pub call_tool :
    Env
    → Backend
    → String
    → String
    → RpcRequest
    → Dict String
    → String
    → World
    → Result ClientError String × World
unfolding stateless inject_meta
call_tool env b session_id credential req headers tool_name w =
    if stateless b
    then call_stateless env b req (inject_meta req.params) session_id credential headers tool_name w
    else post_call env b req session_id credential headers tool_name w
