-- ===== src/Proxy/Route/Sent.antt =====
-- What routing a call sends: only requests with the tenant's own credential to its backend.
use mt_mcp_proxy.Base.{
  String, refl, inl, inr, Option, none, some, ◌==◌, Result, ok, err, Bool-cases,
}
use mt_mcp_proxy.Base.Dict.{Dict}
use mt_mcp_proxy.Http.{Request, header_get}
use mt_mcp_proxy.Registry.{effective_credential, stateless}
use mt_mcp_proxy.Session.{Session, backend_sid_of}
use mt_mcp_proxy.Proxy.Mcp.{mcp_session_header}
use mt_mcp_proxy.Proxy.World.{Env, World}
use mt_mcp_proxy.Proxy.Client.{ClientError, initialize}
use mt_mcp_proxy.Proxy.Client.Headers.{
  PostTo, Sends, Sends-none, Sends-trans, initialize-Sends, notify_initialized-Sends,
  call_tool-Sends,
}
use mt_mcp_proxy.Proxy.Catalog.{default_init_params}
use mt_mcp_proxy.Proxy.Route.{Call, forward, opened, with_session, in_session, route_to_backend}

module _ (env : Env) (h : Dict String) (c : Call) where
  -- The requests of the call's tenant.
  abbrev Own : World → World → Type 0
  Own = Sends (PostTo env c.tenant c.param_headers)

  forward-Sends : (sid : String) (w : World) → Own w (forward env h c sid w).1
  forward-Sends sid w =
      unfold forward in call_tool-Sends env c.tenant c.param_headers sid c.request c.tool_name w

  pub opened-Sends :
      (proxy_sid : String) (r : Result ClientError String) (w : World)
      → Own w (opened env h c proxy_sid r w).1
  opened-Sends proxy_sid (err e) w = Sends-none w w refl
  opened-Sends proxy_sid (ok sid) w = elim (Bool-cases (sid == "")) [
    | inl e ↦ rw e (Sends-trans (Sends-none w _ refl) (forward-Sends sid _))
    | inr e ↦ rw e (
        Sends-trans (notify_initialized-Sends env c.tenant c.param_headers sid w)
          (Sends-trans (Sends-none _ _ refl) (forward-Sends sid _)))
  ]

  with_session-Sends :
      (proxy_sid : String) (o : Option String) (w : World)
      → Own w (with_session env h c proxy_sid o w).1
  unfolding with_session
  with_session-Sends proxy_sid (some sid) w = forward-Sends sid w
  with_session-Sends proxy_sid none w =
      Sends-trans (initialize-Sends env c.tenant c.param_headers default_init_params w) (
        opened-Sends proxy_sid
          (initialize env c.tenant.backend default_init_params (effective_credential c.tenant) w).0
          _)

  pub in_session-Sends :
      (proxy_sid : String) (o : Option Session) (w : World)
      → Own w (in_session env h c proxy_sid o w).1
  unfolding in_session
  in_session-Sends proxy_sid none w = Sends-none w w refl
  in_session-Sends proxy_sid (some sess) w =
      with_session-Sends proxy_sid (backend_sid_of sess c.tenant.id) w

  -- Every request that `routeToBackend` sends goes to the backend of the call's tenant. Over it are
  -- laid at most the tenant's configured headers and the parameter headers of the call, and it has
  -- the tenant's effective credential in the backend's credential header, unless that credential is
  -- empty or one of these headers or of the backend's configured headers has that very name.
  pub route_to_backend-Sends :
      (r : Request) (w : World)
      → Sends (PostTo env c.tenant c.param_headers) w (route_to_backend env h r c w).1
  route_to_backend-Sends r w = elim (Bool-cases (stateless c.tenant.backend)) [
    | inl e ↦ unfold route_to_backend in rw e (forward-Sends "" w)
    | inr e ↦
        unfold route_to_backend in
        rw e (
          Sends-trans (Sends-none w _ refl)
            (in_session-Sends (header_get r.headers (env.canonical mcp_session_header)) _ _))
  ]
