-- ===== src/Proxy/Serve/Sessions.antt =====
-- internal/proxy/handler.go: a request adds at most the session that it counts.
use mt_mcp_proxy.Base.{
  ℕ, ◌+◌, ◌≤◌, String, inl, inr, Bool, true, false, Option, none, some, arith, Bool-cases, not,
}
use mt_mcp_proxy.Base.Dict.{Dict}
use mt_mcp_proxy.Http.{Request, RpcRequest, header_get}
use mt_mcp_proxy.Registry.{all_stateless, tenants}
use mt_mcp_proxy.Registry.Build.{IsWellFormed}
use mt_mcp_proxy.Session
use mt_mcp_proxy.Session.{Session}
use mt_mcp_proxy.Session.Size.{size, length-mint, length-delete_session}
use mt_mcp_proxy.Proxy.Mcp.{mcp_session_header}
use mt_mcp_proxy.Proxy.World.{Env, World}
use mt_mcp_proxy.Proxy.Catalog.Cache.{tools_for-Quiet}
use mt_mcp_proxy.Proxy.Route.Quiet.{teardown_all-Quiet}
use mt_mcp_proxy.Proxy.Route.Sessions.{
  Shrinks, Shrinks-refl, Shrinks-trans, Quiet-Shrinks, route_to_backend-Shrinks,
}
use mt_mcp_proxy.Proxy.ToolsCall.{Handler, prepared, handle_tools_call}
use mt_mcp_proxy.Proxy.ToolsCall.Dispatch.{handle_tools_call-cases}
use mt_mcp_proxy.Proxy.ToolsList.{handle_tools_list, listed_tenants, authorized_of}
use mt_mcp_proxy.Proxy.Serve.{teardown_session, handle_initialize, handle_delete, serve_http}
use mt_mcp_proxy.Proxy.Serve.Dispatch.{serve_http-cases}

abbrev pub one_if : Bool → ℕ
one_if false = 0
one_if true = 1

-- One session more at most, if one was counted.
pub record Grows (w : World) (opens : Bool) (w' : World) : Type 0 where
  pub bound : size w'.store ≤ size w.store + one_if opens

Shrinks-Grows : {w w' : World} → Shrinks w w' → Grows w false w'
Shrinks-Grows s = record { bound = omega (arith, s.fewer) }

module _ (env : Env) (hd : Handler) (wf : IsWellFormed hd.registry.by_tenant) where
  handle_tools_call-Shrinks :
      (h : Dict String) (r : Request) (req : RpcRequest) (w : World)
      → Shrinks w (handle_tools_call env hd h r req w).2
  handle_tools_call-Shrinks h r req w =
      handle_tools_call-cases (Shrinks w) env hd h r w wf req (record {
        same = Shrinks-refl w;
        routes = λ groups t params clean s.
            route_to_backend-Shrinks env h (prepared env w.catalogs req.id t params clean) r w;
      })

  handle_initialize-Grows :
      (h : Dict String) (id : String) (req : RpcRequest) (w : World)
      → Grows w (not (all_stateless hd.registry)) (handle_initialize env hd h id req w).1
  handle_initialize-Grows h id req w = elim (Bool-cases (all_stateless hd.registry)) [
    | inl e ↦ unfold handle_initialize in rw e (Shrinks-Grows (Shrinks-refl w))
    | inr e ↦ unfold handle_initialize in rw e (record { bound = length-mint id w.now w.store })
  ]

  teardown_session-Shrinks :
      (o : Option Session) (w : World) → Shrinks w (teardown_session env hd o w)
  teardown_session-Shrinks none w = Shrinks-refl w
  teardown_session-Shrinks (some sess) w =
      Quiet-Shrinks (teardown_all-Quiet env sess (tenants hd.registry) w)

  handle_delete-Shrinks : (r : Request) (w : World) → Shrinks w (handle_delete env hd r w).1
  handle_delete-Shrinks r w = elim (Bool-cases (all_stateless hd.registry)) [
    | inl e ↦ unfold handle_delete in rw e (Shrinks-refl w)
    | inr e ↦
        unfold handle_delete in
        rw e (
          let id = header_get r.headers (env.canonical mcp_session_header) in
          let deleted : Shrinks w (record w { store = (Session.delete_session id w.store).1 }) =
            record { fewer = length-delete_session id w.store } in
          Shrinks-trans deleted (teardown_session-Shrinks (Session.delete_session id w.store).0 _))
  ]

  pub serve_http-Grows :
      (id : String) (r : Request) (w : World)
      → Grows w (serve_http env hd id r w).opens (serve_http env hd id r w).world
  serve_http-Grows id r w =
      serve_http-cases (Grows w) env hd r w id (Shrinks-Grows (Shrinks-refl w))
        (Shrinks-Grows (handle_delete-Shrinks r w))
        (λ h req. record {
          same = Shrinks-Grows (Shrinks-refl w);
          initialized = handle_initialize-Grows h id req w;
          listed =
              unfold handle_tools_list in
              Shrinks-Grows (
                Quiet-Shrinks
                  (tools_for-Quiet env (listed_tenants hd (authorized_of hd (hd.verifier r))) w));
          called = Shrinks-Grows (handle_tools_call-Shrinks h r req w);
        })
