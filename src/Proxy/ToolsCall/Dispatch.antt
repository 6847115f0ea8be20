-- ===== src/Proxy/ToolsCall/Dispatch.antt =====
-- internal/proxy/handler.go: a tools/call leaves the state as it is, or routes to a tenant that the
-- caller may select; what holds after both holds after it.
use mt_mcp_proxy.Base.{
  String, ◌≡◌, refl, inl, inr, Bool, true, false, Option, none, some, List, ◌==◌, ok, Bool-cases,
  Result-cases,
}
use mt_mcp_proxy.Base.Dict.{Dict}
use mt_mcp_proxy.Json.{Json}
use mt_mcp_proxy.Http.{Request, RpcRequest}
use mt_mcp_proxy.Auth.{AuthError, unauthorized, insufficient_scope, other}
use mt_mcp_proxy.Observability.{ToolCallAttrs}
use mt_mcp_proxy.Registry.{Tenant, resolve_tenant, is_authorized, authorized_tenants}
use mt_mcp_proxy.Registry.Build.{IsWellFormed}
use mt_mcp_proxy.Registry.Authorize.{In-authorized_tenants}
use mt_mcp_proxy.Proxy.Schema.{ToolCallParams, unmarshal_call_params, list_instances_tool}
use mt_mcp_proxy.Proxy.World.{Env, World}
use mt_mcp_proxy.Proxy.Select.{select_tenant}
use mt_mcp_proxy.Proxy.Select.Laws.{select_tenant_iff}
use mt_mcp_proxy.Proxy.Route.{Response, route_to_backend}
use mt_mcp_proxy.Proxy.ToolsCall.{
  Handler, auth_failure, routed, prepared, strip_params, strip_and_route, call_selected,
  call_tool_named, call_params, handle_tools_call,
}

-- The caller has these groups, they may select the tenant, and the call has these params.
pub record Selected (hd : Handler) (r : Request) (req : RpcRequest) (groups : List String)
    (t : Tenant) (params : ToolCallParams) : Type 0 where
  pub verified : hd.verifier r ≡ ok groups
  pub registered : resolve_tenant hd.registry t.id ≡ ok t
  pub authorized : is_authorized t groups ≡ true
  pub decoded : unmarshal_call_params req.params ≡ some params

module _ (P : World → Type 0) (env : Env) (hd : Handler) (h : Dict String) (r : Request) (w : World)
    (wf : IsWellFormed hd.registry.by_tenant) where
  -- It holds before the call, and after each call that may be routed.
  pub record Routes (req : RpcRequest) : Type 0 where
    pub same : P w
    pub routes :
        (groups : List String) (t : Tenant) (params : ToolCallParams) (clean : Json)
        → Selected hd r req groups t params
        → P (route_to_backend env h r (prepared env w.catalogs req.id t params clean) w).1

  routed-world :
      (attrs : ToolCallAttrs) (out : (Bool × Response) × World) → P out.1 → P (routed attrs out).2
  routed-world attrs ((true, resp), w') p = p
  routed-world attrs ((false, resp), w') p = p

  auth_failure-world :
      (id : Option Json) (e : AuthError) → P w → P (auth_failure env hd h r id e w).2
  unfolding auth_failure
  auth_failure-world id insufficient_scope p = p
  auth_failure-world id (unauthorized reason) p = p
  auth_failure-world id other p = p

  strip_and_route-cases :
      (req : RpcRequest) (groups : List String) (t : Tenant) (params : ToolCallParams)
      (attrs : ToolCallAttrs) (clean : Option Json)
      → Selected hd r req groups t params
      → Routes req
      → P (strip_and_route env hd h r req.id t params attrs clean w).2
  strip_and_route-cases req groups t params attrs none s c = c.same
  strip_and_route-cases req groups t params attrs (some clean) s c =
      routed-world attrs _ (c.routes groups t params clean s)

  call_selected-cases :
      (req : RpcRequest) (groups : List String) (params : ToolCallParams)
      → hd.verifier r ≡ ok groups
      → unmarshal_call_params req.params ≡ some params
      → Routes req
      → P
          (call_selected env hd h r req params
            (select_tenant env hd.registry w.catalogs params.name params.arguments groups
              (authorized_tenants hd.registry groups))
            w).2
  call_selected-cases req groups params verified decoded c =
      elim (Result-cases (
        select_tenant env hd.registry w.catalogs params.name params.arguments groups
          (authorized_tenants hd.registry groups))) [
            | inl (msg, e) ↦ rw e (unfold call_selected in c.same)
            | inr (t, e) ↦
                let (i, _, _) =
                  (select_tenant_iff env hd.registry w.catalogs params.name groups params.arguments
                      t wf).0
                    e in
                let (found, allowed) = (In-authorized_tenants hd.registry groups t wf).0 i in
                rw e (
                  unfold call_selected in
                  strip_and_route-cases req groups t params _ (strip_params req.params)
                    (record {
                      verified = verified;
                      registered = found;
                      authorized = allowed;
                      decoded = decoded;
                    })
                    c)
          ]

  call_params-cases :
      (req : RpcRequest) (groups : List String) (o : Option ToolCallParams)
      → hd.verifier r ≡ ok groups
      → unmarshal_call_params req.params ≡ o
      → Routes req
      → P (call_params env hd h r req groups o w).2
  unfolding call_params
  call_params-cases req groups none verified decoded c = c.same
  call_params-cases req groups (some params) verified decoded c =
      elim (Bool-cases (params.name == list_instances_tool)) [
        | inl e ↦ unfold call_tool_named in rw e c.same
        | inr e ↦
            unfold call_tool_named in
            rw e (call_selected-cases req groups params verified decoded c)
      ]

  pub handle_tools_call-cases :
      (req : RpcRequest) → Routes req → P (handle_tools_call env hd h r req w).2
  handle_tools_call-cases req c = elim (Result-cases (hd.verifier r)) [
    | inl (e, refused) ↦ unfold handle_tools_call in rw refused (auth_failure-world req.id e c.same)
    | inr (groups, verified) ↦
        unfold handle_tools_call in
        rw verified
          (call_params-cases req groups (unmarshal_call_params req.params) verified refl c)
  ]
