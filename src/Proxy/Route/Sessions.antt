-- ===== src/Proxy/Route/Sessions.antt =====
-- internal/proxy/handler.go: routing a call opens no session of a client.
use native.Mathlib.Nat.{le_trans, le_refl}
use mt_mcp_proxy.Base.{
  ◌≤◌, String, inl, inr, Option, none, some, ◌==◌, Result, ok, err, subst, sym, Bool-cases,
}
use mt_mcp_proxy.Base.Dict.{Dict}
use mt_mcp_proxy.Http.{Request, header_get}
use mt_mcp_proxy.Registry.{effective_credential, stateless}
use mt_mcp_proxy.Session
use mt_mcp_proxy.Session.{Session, backend_sid_of}
use mt_mcp_proxy.Session.Size.{size, length-get, length-set_backend_sid}
use mt_mcp_proxy.Proxy.Mcp.{mcp_session_header}
use mt_mcp_proxy.Proxy.World.{Env, World}
use mt_mcp_proxy.Proxy.Client.{ClientError, initialize, notify_initialized}
use mt_mcp_proxy.Proxy.Client.Quiet.{Quiet, initialize-Quiet, notify_initialized-Quiet}
use mt_mcp_proxy.Proxy.Catalog.{default_init_params}
use mt_mcp_proxy.Proxy.Route.{Call, forward, opened, with_session, in_session, route_to_backend}
use mt_mcp_proxy.Proxy.Route.Quiet.{forward-Quiet}

-- There are no more sessions after than before.
pub record Shrinks (w w' : World) : Type 0 where
  pub fewer : size w'.store ≤ size w.store

pub Shrinks-refl : (w : World) → Shrinks w w
Shrinks-refl w = record { fewer = le_refl (size w.store) }

pub Shrinks-trans : {w w' w'' : World} → Shrinks w w' → Shrinks w' w'' → Shrinks w w''
Shrinks-trans p q = record { fewer = le_trans q.fewer p.fewer }

pub Quiet-Shrinks : {w w' : World} → Quiet w w' → Shrinks w w'
Quiet-Shrinks {w} q = record {
  fewer = subst (λ s. size s ≤ size w.store) (sym q.store) (le_refl (size w.store));
}

module _ (env : Env) (h : Dict String) (c : Call) where
  forward-Shrinks : (sid : String) (w : World) → Shrinks w (forward env h c sid w).1
  forward-Shrinks sid w = Quiet-Shrinks (forward-Quiet env h c sid w)

  kept-Shrinks :
      (proxy_sid sid : String) (w : World)
      → Shrinks w
          (record w { store = Session.set_backend_sid proxy_sid c.tenant.id sid w.now w.store })
  kept-Shrinks proxy_sid sid w = record {
    fewer = length-set_backend_sid proxy_sid c.tenant.id sid w.now w.store;
  }

  opened-Shrinks :
      (proxy_sid : String) (r : Result ClientError String) (w : World)
      → Shrinks w (opened env h c proxy_sid r w).1
  opened-Shrinks proxy_sid (err e) w = Shrinks-refl w
  opened-Shrinks proxy_sid (ok sid) w = elim (Bool-cases (sid == "")) [
    | inl e ↦ rw e (Shrinks-trans (kept-Shrinks proxy_sid sid w) (forward-Shrinks sid _))
    | inr e ↦ rw e (
        let cred = effective_credential c.tenant in
        Shrinks-trans (Quiet-Shrinks (notify_initialized-Quiet env c.tenant.backend sid cred w)) (
          Shrinks-trans
            (kept-Shrinks proxy_sid sid (notify_initialized env c.tenant.backend sid cred w))
            (forward-Shrinks sid _)))
  ]

  with_session-Shrinks :
      (proxy_sid : String) (o : Option String) (w : World)
      → Shrinks w (with_session env h c proxy_sid o w).1
  unfolding with_session
  with_session-Shrinks proxy_sid (some sid) w = forward-Shrinks sid w
  with_session-Shrinks proxy_sid none w =
      let cred = effective_credential c.tenant in
      Shrinks-trans
        (Quiet-Shrinks (initialize-Quiet env c.tenant.backend default_init_params cred w))
        (opened-Shrinks proxy_sid (initialize env c.tenant.backend default_init_params cred w).0 _)

  in_session-Shrinks :
      (proxy_sid : String) (o : Option Session) (w : World)
      → Shrinks w (in_session env h c proxy_sid o w).1
  unfolding in_session
  in_session-Shrinks proxy_sid none w = Shrinks-refl w
  in_session-Shrinks proxy_sid (some sess) w =
      with_session-Shrinks proxy_sid (backend_sid_of sess c.tenant.id) w

  pub route_to_backend-Shrinks :
      (r : Request) (w : World) → Shrinks w (route_to_backend env h r c w).1
  route_to_backend-Shrinks r w = elim (Bool-cases (stateless c.tenant.backend)) [
    | inl e ↦ unfold route_to_backend in rw e (forward-Shrinks "" w)
    | inr e ↦
        unfold route_to_backend in
        rw e (
          let id = header_get r.headers (env.canonical mcp_session_header) in
          let got : Shrinks w (record w { store = (Session.get id w.now w.store).1 }) = record {
            fewer = length-get id w.now w.store;
          } in
          Shrinks-trans got (in_session-Shrinks id (Session.get id w.now w.store).0 _))
  ]
