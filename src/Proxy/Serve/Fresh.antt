-- ===== src/Proxy/Serve/Fresh.antt =====
-- internal/proxy/handler.go: a fresh tool list outlives every request.
use mt_mcp_proxy.Base.{ℕ, String, inl, inr, Option, none, some, Bool-cases}
use mt_mcp_proxy.Base.Dict.{Dict}
use mt_mcp_proxy.Http.{Request, RpcRequest, header_get}
use mt_mcp_proxy.Registry.{all_stateless, tenants}
use mt_mcp_proxy.Registry.Build.{IsWellFormed}
use mt_mcp_proxy.Session
use mt_mcp_proxy.Session.{Session}
use mt_mcp_proxy.Proxy.Mcp.{mcp_session_header}
use mt_mcp_proxy.Proxy.World.{Env, World, CatalogEntry}
use mt_mcp_proxy.Proxy.Client.Steady.{Steady, Steady-refl, Steady-trans, Steady-store}
use mt_mcp_proxy.Proxy.Catalog.Fresh.{Keeps, Steady-Keeps, tools_for-Keeps}
use mt_mcp_proxy.Proxy.Route.Steady.{route_to_backend-Steady, teardown_all-Steady}
use mt_mcp_proxy.Proxy.ToolsCall.{Handler, prepared, handle_tools_call}
use mt_mcp_proxy.Proxy.ToolsCall.Dispatch.{handle_tools_call-cases}
use mt_mcp_proxy.Proxy.ToolsList.{handle_tools_list, listed_tenants, authorized_of}
use mt_mcp_proxy.Proxy.Serve.{teardown_session, handle_initialize, handle_delete, serve_http}
use mt_mcp_proxy.Proxy.Serve.Dispatch.{serve_http-cases}

module _ (env : Env) (hd : Handler) (wf : IsWellFormed hd.registry.by_tenant) where
  handle_tools_call-Steady :
      (h : Dict String) (r : Request) (req : RpcRequest) (w : World)
      → Steady w (handle_tools_call env hd h r req w).2
  handle_tools_call-Steady h r req w =
      handle_tools_call-cases (Steady w) env hd h r w wf req (record {
        same = Steady-refl w;
        routes = λ groups t params clean s.
            route_to_backend-Steady env h (prepared env w.catalogs req.id t params clean) r w;
      })

  handle_initialize-Steady :
      (h : Dict String) (id : String) (req : RpcRequest) (w : World)
      → Steady w (handle_initialize env hd h id req w).1
  handle_initialize-Steady h id req w = elim (Bool-cases (all_stateless hd.registry)) [
    | inl e ↦ unfold handle_initialize in rw e (Steady-refl w)
    | inr e ↦ unfold handle_initialize in rw e (Steady-store w (Session.mint id w.now w.store).1)
  ]

  teardown_session-Steady :
      (o : Option Session) (w : World) → Steady w (teardown_session env hd o w)
  teardown_session-Steady none w = Steady-refl w
  teardown_session-Steady (some sess) w = teardown_all-Steady env sess (tenants hd.registry) w

  handle_delete-Steady : (r : Request) (w : World) → Steady w (handle_delete env hd r w).1
  handle_delete-Steady r w = elim (Bool-cases (all_stateless hd.registry)) [
    | inl e ↦ unfold handle_delete in rw e (Steady-refl w)
    | inr e ↦
        unfold handle_delete in
        rw e (
          let id = header_get r.headers (env.canonical mcp_session_header) in
          Steady-trans (Steady-store w (Session.delete_session id w.store).1)
            (teardown_session-Steady (Session.delete_session id w.store).0 _))
  ]

  pub serve_http-Keeps :
      (i : ℕ) (c : CatalogEntry) (id : String) (r : Request) (w : World)
      → Keeps i c w
      → Keeps i c (serve_http env hd id r w).world
  serve_http-Keeps i c id r w k =
      serve_http-cases (λ _. Keeps i c) env hd r w id k
        (Steady-Keeps i c (handle_delete-Steady r w) k)
        (λ h req. record {
          same = k;
          initialized = Steady-Keeps i c (handle_initialize-Steady h id req w) k;
          listed =
              unfold handle_tools_list in
              tools_for-Keeps env i c (listed_tenants hd (authorized_of hd (hd.verifier r))) w k;
          called = Steady-Keeps i c (handle_tools_call-Steady h r req w) k;
        })
