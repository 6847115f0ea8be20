-- ===== src/Proxy/Route/Provenance.antt =====
-- Routing a call keeps the backend sessions apart: each id in the store was opened for its tenant.
use mt_mcp_proxy.Base.{
  String, ◌≡◌, refl, inl, inr, Option, none, some, ◌==◌, Result, ok, err, Bool-cases,
}
use mt_mcp_proxy.Base.Dict.{Dict}
use mt_mcp_proxy.Http.{Request, header_get}
use mt_mcp_proxy.Registry.{Registry, resolve_tenant, effective_credential, stateless}
use mt_mcp_proxy.Session.{Session, backend_sid_of}
use mt_mcp_proxy.Proxy.Mcp.{mcp_session_header}
use mt_mcp_proxy.Proxy.World.{Env, World}
use mt_mcp_proxy.Proxy.Client.{ClientError, initialize}
use mt_mcp_proxy.Proxy.Client.Quiet.{call_tool-Quiet, initialize-Quiet, notify_initialized-Quiet}
use mt_mcp_proxy.Proxy.Catalog.{default_init_params}
use mt_mcp_proxy.Proxy.Provenance.{
  Opened, IsProven, Opened-Quiet, Quiet-IsProven, get-IsProven, set_backend_sid-IsProven,
  initialize-Opened,
}
use mt_mcp_proxy.Proxy.Route.{
  Call, headers_of, forward, opened, with_session, in_session, route_to_backend,
}

module _ (env : Env) (reg : Registry) (h : Dict String) (c : Call)
    (found : resolve_tenant reg c.tenant.id ≡ ok c.tenant) where
  abbrev Holds : World → Type 0
  Holds w = IsProven env reg w

  forward-IsProven : (sid : String) (w : World) → Holds w → Holds (forward env h c sid w).1
  forward-IsProven sid w v =
      unfold forward in
      Quiet-IsProven env reg
        (call_tool-Quiet env c.tenant.backend sid (effective_credential c.tenant) c.request
          (headers_of c) c.tool_name w)
        v

  opened-IsProven :
      (proxy_sid : String) (r : Result ClientError String) (w : World)
      → ((sid : String) → r ≡ ok sid → Opened env reg w.exchanged c.tenant.id sid)
      → Holds w
      → Holds (opened env h c proxy_sid r w).1
  opened-IsProven proxy_sid (err e) w o v = v
  opened-IsProven proxy_sid (ok sid) w o v = elim (Bool-cases (sid == "")) [
    | inl e ↦ rw e (
        forward-IsProven sid _
          (set_backend_sid-IsProven env reg proxy_sid c.tenant.id sid w (o sid refl) v))
    | inr e ↦
        let q =
          notify_initialized-Quiet env c.tenant.backend sid (effective_credential c.tenant) w in
        rw e (
          forward-IsProven sid _ (
            set_backend_sid-IsProven env reg proxy_sid c.tenant.id sid _
              (Opened-Quiet env reg q c.tenant.id sid (o sid refl)) (Quiet-IsProven env reg q v)))
  ]

  with_session-IsProven :
      (proxy_sid : String) (o : Option String) (w : World)
      → Holds w
      → Holds (with_session env h c proxy_sid o w).1
  unfolding with_session
  with_session-IsProven proxy_sid (some sid) w v = forward-IsProven sid w v
  with_session-IsProven proxy_sid none w v =
      opened-IsProven proxy_sid
        (initialize env c.tenant.backend default_init_params (effective_credential c.tenant) w).0 _
        (λ sid e. initialize-Opened env reg c.tenant sid w found e)
        (Quiet-IsProven env reg
          (initialize-Quiet env c.tenant.backend default_init_params (effective_credential c.tenant)
            w)
          v)

  in_session-IsProven :
      (proxy_sid : String) (o : Option Session) (w : World)
      → Holds w
      → Holds (in_session env h c proxy_sid o w).1
  unfolding in_session
  in_session-IsProven proxy_sid none w v = v
  in_session-IsProven proxy_sid (some sess) w v =
      with_session-IsProven proxy_sid (backend_sid_of sess c.tenant.id) w v

  pub route_to_backend-IsProven :
      (r : Request) (w : World) → Holds w → Holds (route_to_backend env h r c w).1
  route_to_backend-IsProven r w v = elim (Bool-cases (stateless c.tenant.backend)) [
    | inl e ↦ unfold route_to_backend in rw e (forward-IsProven "" w v)
    | inr e ↦
        unfold route_to_backend in
        rw e (
          let id = header_get r.headers (env.canonical mcp_session_header) in
          in_session-IsProven id _ _ (get-IsProven env reg id w v))
  ]
