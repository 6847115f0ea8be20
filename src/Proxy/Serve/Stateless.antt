-- ===== src/Proxy/Serve/Stateless.antt =====
-- In a deployment of stateless backends the proxy keeps no sessions.
use mt_mcp_proxy.Base.{String, ◌≡◌, true}
use mt_mcp_proxy.Base.Dict.{Dict}
use mt_mcp_proxy.Http.{Request, RpcRequest}
use mt_mcp_proxy.Registry.{all_stateless}
use mt_mcp_proxy.Registry.Build.{IsWellFormed}
use mt_mcp_proxy.Proxy.World.{Env, World}
use mt_mcp_proxy.Proxy.Client.Quiet.{Quiet, Quiet-refl}
use mt_mcp_proxy.Proxy.Catalog.Cache.{tools_for-Quiet}
use mt_mcp_proxy.Proxy.ToolsCall.{Handler, prepared, handle_tools_call}
use mt_mcp_proxy.Proxy.ToolsList.{handle_tools_list, listed_tenants, authorized_of}
use mt_mcp_proxy.Proxy.Serve.{handle_initialize, handle_delete, serve_http}
use mt_mcp_proxy.Proxy.Serve.Dispatch.{serve_http-cases}
use mt_mcp_proxy.Registry.Backends.{IsBacked, all_stateless-resolve_tenant}
use mt_mcp_proxy.Proxy.ToolsCall.Dispatch.{handle_tools_call-cases}
use mt_mcp_proxy.Proxy.Route.Quiet.{route_to_backend-Quiet}

module _ (env : Env) (hd : Handler) (wf : IsWellFormed hd.registry.by_tenant)
    (backed : IsBacked hd.registry.by_tenant hd.registry.backends)
    (calm : all_stateless hd.registry ≡ true) where
  handle_tools_call-Quiet :
      (h : Dict String) (r : Request) (req : RpcRequest) (w : World)
      → Quiet w (handle_tools_call env hd h r req w).2
  handle_tools_call-Quiet h r req w =
      handle_tools_call-cases (Quiet w) env hd h r w wf req (record {
        same = Quiet-refl w;
        routes = λ groups t params clean s.
            route_to_backend-Quiet env h r (prepared env w.catalogs req.id t params clean) w
              (all_stateless-resolve_tenant hd.registry t.id t backed calm s.registered);
      })

  handle_tools_list-Quiet :
      (h : Dict String) (r : Request) (req : RpcRequest) (w : World)
      → Quiet w (handle_tools_list env hd h r req w).1
  unfolding handle_tools_list
  handle_tools_list-Quiet h r req w =
      tools_for-Quiet env (listed_tenants hd (authorized_of hd (hd.verifier r))) w

  handle_initialize-Quiet :
      (h : Dict String) (id : String) (req : RpcRequest) (w : World)
      → Quiet w (handle_initialize env hd h id req w).1
  handle_initialize-Quiet h id req w = unfold handle_initialize in rw calm (Quiet-refl w)

  -- Where every backend is stateless, no request opens, changes or closes a session: the store
  -- after it is the one before, the clock has not gone back, and the exchanges with backends so
  -- far stay. (The registry is well-formed, and has the backend of each of its tenants.)
  pub serve_http-Quiet :
      (id : String) (r : Request) (w : World) → Quiet w (serve_http env hd id r w).world
  serve_http-Quiet id r w =
      serve_http-cases (λ _. Quiet w) env hd r w id (Quiet-refl w)
        (unfold handle_delete in rw calm (Quiet-refl w))
        (λ h req. record {
          same = Quiet-refl w;
          initialized = handle_initialize-Quiet h id req w;
          listed = handle_tools_list-Quiet h r req w;
          called = handle_tools_call-Quiet h r req w;
        })
