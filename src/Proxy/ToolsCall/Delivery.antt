-- ===== src/Proxy/ToolsCall/Delivery.antt =====
-- What a tools/call may send, and for whom.
use mt_mcp_proxy.Base.{String, ◌≡◌, refl, true, List, ok}
use mt_mcp_proxy.Base.Dict.{Dict}
use mt_mcp_proxy.Http.{Request, RpcRequest}
use mt_mcp_proxy.Registry.{Tenant, resolve_tenant, is_authorized}
use mt_mcp_proxy.Registry.Build.{IsWellFormed}
use mt_mcp_proxy.Proxy.Schema.{ToolCallParams, unmarshal_call_params}
use mt_mcp_proxy.Base.{some}
use mt_mcp_proxy.Proxy.ToolsCall.{param_headers_for_call}
use mt_mcp_proxy.Proxy.World.{Env, World, Outgoing}
use mt_mcp_proxy.Proxy.Client.Headers.{PostTo, Sends, Sends-none, Sends-map}
use mt_mcp_proxy.Proxy.Route.Sent.{route_to_backend-Sends}
use mt_mcp_proxy.Proxy.ToolsCall.{Handler, prepared, handle_tools_call}
use mt_mcp_proxy.Proxy.ToolsCall.Dispatch.{handle_tools_call-cases}

-- The request goes to the backend of a registered tenant that the caller's groups may select, with
-- that tenant's credential, and over it are laid at most the tenant's headers and the parameter
-- headers of the call.
pub record IsAllowed (env : Env) (hd : Handler) (r : Request) (req : RpcRequest) (w : World)
    (o : Outgoing) : Type 0 where
  pub groups : List String
  pub tenant : Tenant
  pub params : ToolCallParams
  pub verified : hd.verifier r ≡ ok groups
  pub registered : resolve_tenant hd.registry tenant.id ≡ ok tenant
  pub authorized : is_authorized tenant groups ≡ true
  pub decoded : unmarshal_call_params req.params ≡ some params
  pub addressed :
      PostTo env tenant
        (param_headers_for_call env w.catalogs tenant params.name params.arguments)
        o

-- Whatever the request, each message that a tools/call sends goes to the backend of a registered
-- tenant that the verified groups of the caller may select. Over it are laid at most that tenant's
-- configured headers and the parameter headers of this call, and it has that tenant's effective
-- credential in the backend's credential header, unless that credential is empty or one of these
-- headers or of the backend's configured headers has that very name. (The registry is well-formed.)
pub handle_tools_call-Sends :
    (env : Env) (hd : Handler) (h : Dict String) (r : Request) (req : RpcRequest) (w : World)
    → IsWellFormed hd.registry.by_tenant
    → Sends (IsAllowed env hd r req w) w (handle_tools_call env hd h r req w).2
handle_tools_call-Sends env hd h r req w wf =
    handle_tools_call-cases (Sends (IsAllowed env hd r req w) w) env hd h r w wf req (record {
      same = Sends-none w w refl;
      routes = λ groups t params clean s.
          Sends-map
            (λ o p. record {
              groups = groups;
              tenant = t;
              params = params;
              verified = s.verified;
              registered = s.registered;
              authorized = s.authorized;
              decoded = s.decoded;
              addressed = p;
            })
            (route_to_backend-Sends env h (prepared env w.catalogs req.id t params clean) r w);
    })
