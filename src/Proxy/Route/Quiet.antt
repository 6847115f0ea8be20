-- ===== src/Proxy/Route/Quiet.antt =====
-- internal/proxy/handler.go: what sends requests and leaves the sessions alone: a call to a stateless
-- backend, and the teardown.
use mt_mcp_proxy.Base.{
  String, ◌≡◌, inl, inr, true, Option, none, some, List, [], ◌∷◌, ◌==◌, Bool-cases,
}
use mt_mcp_proxy.Base.Dict.{Dict}
use mt_mcp_proxy.Http.{Request}
use mt_mcp_proxy.Registry.{Tenant, stateless, effective_credential}
use mt_mcp_proxy.Session.{Session, backend_sid_of}
use mt_mcp_proxy.Proxy.World.{Env, World}
use mt_mcp_proxy.Proxy.Client.Quiet.{
  Quiet, Quiet-refl, Quiet-trans, do_request-Quiet, call_tool-Quiet,
}
use mt_mcp_proxy.Proxy.Route.{
  Call, headers_of, forward, route_to_backend, teardown_request, teardown_backend, teardown_tenant,
  teardown_all,
}

pub forward-Quiet :
    (env : Env) (h : Dict String) (c : Call) (sid : String) (w : World)
    → Quiet w (forward env h c sid w).1
unfolding forward
forward-Quiet env h c sid w =
    call_tool-Quiet env c.tenant.backend sid (effective_credential c.tenant) c.request
      (headers_of c) c.tool_name w

pub route_to_backend-Quiet :
    (env : Env) (h : Dict String) (r : Request) (c : Call) (w : World)
    → stateless c.tenant.backend ≡ true
    → Quiet w (route_to_backend env h r c w).1
route_to_backend-Quiet env h r c w e = unfold route_to_backend in rw e (forward-Quiet env h c "" w)

module _ (env : Env) where
  teardown_tenant-Quiet :
      (t : Tenant) (o : Option String) (w : World) → Quiet w (teardown_tenant env t o w)
  teardown_tenant-Quiet t none w = Quiet-refl w
  teardown_tenant-Quiet t (some sid) w = elim (Bool-cases (sid == "")) [
    | inl e ↦ rw e (Quiet-refl w)
    | inr e ↦ rw e (unfold teardown_backend in do_request-Quiet env (teardown_request env t sid) w)
  ]

  pub teardown_all-Quiet :
      (sess : Session) (ts : List Tenant) (w : World) → Quiet w (teardown_all env sess ts w)
  unfolding teardown_all
  teardown_all-Quiet sess [] w = Quiet-refl w
  teardown_all-Quiet sess (t ∷ ts) w =
      Quiet-trans (teardown_tenant-Quiet t (backend_sid_of sess t.id) w)
        (teardown_all-Quiet sess ts _)
