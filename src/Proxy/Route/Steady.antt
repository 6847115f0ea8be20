-- ===== src/Proxy/Route/Steady.antt =====
-- Routing a call and tearing sessions down leave the catalogs alone.
use mt_mcp_proxy.Base.{
  String, inl, inr, Option, none, some, List, [], ◌∷◌, ◌==◌, Result, ok, err, Bool-cases,
}
use mt_mcp_proxy.Base.Dict.{Dict}
use mt_mcp_proxy.Http.{Request, header_get}
use mt_mcp_proxy.Registry.{Tenant, effective_credential, stateless}
use mt_mcp_proxy.Session
use mt_mcp_proxy.Session.{Session, backend_sid_of}
use mt_mcp_proxy.Proxy.Mcp.{mcp_session_header}
use mt_mcp_proxy.Proxy.World.{Env, World}
use mt_mcp_proxy.Proxy.Client.{ClientError, initialize}
use mt_mcp_proxy.Proxy.Catalog.{default_init_params}
use mt_mcp_proxy.Proxy.Client.Steady.{
  Steady, Steady-refl, Steady-trans, Steady-store, do_request-Steady, call_tool-Steady,
  initialize-Steady, notify_initialized-Steady,
}
use mt_mcp_proxy.Proxy.Route.{
  Call, headers_of, forward, opened, with_session, in_session, route_to_backend, teardown_request,
  teardown_backend, teardown_tenant, teardown_all,
}

module _ (env : Env) (h : Dict String) (c : Call) where
  forward-Steady : (sid : String) (w : World) → Steady w (forward env h c sid w).1
  unfolding forward
  forward-Steady sid w =
      call_tool-Steady env c.tenant.backend sid (effective_credential c.tenant) c.request
        (headers_of c) c.tool_name w

  opened-Steady :
      (proxy_sid : String) (r : Result ClientError String) (w : World)
      → Steady w (opened env h c proxy_sid r w).1
  opened-Steady proxy_sid (err e) w = Steady-refl w
  opened-Steady proxy_sid (ok sid) w = elim (Bool-cases (sid == "")) [
    | inl e ↦ rw e (Steady-trans (Steady-store w _) (forward-Steady sid _))
    | inr e ↦ rw e (
        Steady-trans
          (notify_initialized-Steady env c.tenant.backend sid (effective_credential c.tenant) w)
          (Steady-trans (Steady-store _ _) (forward-Steady sid _)))
  ]

  with_session-Steady :
      (proxy_sid : String) (o : Option String) (w : World)
      → Steady w (with_session env h c proxy_sid o w).1
  unfolding with_session
  with_session-Steady proxy_sid (some sid) w = forward-Steady sid w
  with_session-Steady proxy_sid none w =
      let cred = effective_credential c.tenant in
      Steady-trans (initialize-Steady env c.tenant.backend default_init_params cred w)
        (opened-Steady proxy_sid (initialize env c.tenant.backend default_init_params cred w).0 _)

  in_session-Steady :
      (proxy_sid : String) (o : Option Session) (w : World)
      → Steady w (in_session env h c proxy_sid o w).1
  unfolding in_session
  in_session-Steady proxy_sid none w = Steady-refl w
  in_session-Steady proxy_sid (some sess) w =
      with_session-Steady proxy_sid (backend_sid_of sess c.tenant.id) w

  pub route_to_backend-Steady :
      (r : Request) (w : World) → Steady w (route_to_backend env h r c w).1
  route_to_backend-Steady r w = elim (Bool-cases (stateless c.tenant.backend)) [
    | inl e ↦ unfold route_to_backend in rw e (forward-Steady "" w)
    | inr e ↦
        unfold route_to_backend in
        rw e (
          let id = header_get r.headers (env.canonical mcp_session_header) in
          Steady-trans (Steady-store w _) (in_session-Steady id (Session.get id w.now w.store).0 _))
  ]

module _ (env : Env) where
  teardown_tenant-Steady :
      (t : Tenant) (o : Option String) (w : World) → Steady w (teardown_tenant env t o w)
  teardown_tenant-Steady t none w = Steady-refl w
  teardown_tenant-Steady t (some sid) w = elim (Bool-cases (sid == "")) [
    | inl e ↦ rw e (Steady-refl w)
    | inr e ↦ rw e (unfold teardown_backend in do_request-Steady env (teardown_request env t sid) w)
  ]

  pub teardown_all-Steady :
      (sess : Session) (ts : List Tenant) (w : World) → Steady w (teardown_all env sess ts w)
  unfolding teardown_all
  teardown_all-Steady sess [] w = Steady-refl w
  teardown_all-Steady sess (t ∷ ts) w =
      Steady-trans (teardown_tenant-Steady t (backend_sid_of sess t.id) w)
        (teardown_all-Steady sess ts _)
