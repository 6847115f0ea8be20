-- ===== src/Proxy/Serve/Provenance.antt =====
-- Every request keeps the backend sessions apart: each id in the store was opened by its tenant.
use mt_mcp_proxy.Base.{String, inl, inr, Option, none, some, List, [], ◌∷◌, Bool-cases}
use mt_mcp_proxy.Base.Dict.{Dict}
use mt_mcp_proxy.Http.{Request, RpcRequest, header_get}
use mt_mcp_proxy.Registry.{all_stateless, tenants}
use mt_mcp_proxy.Registry.Build.{IsWellFormed}
use mt_mcp_proxy.Session
use mt_mcp_proxy.Session.{Session, backend_sid_of}
use mt_mcp_proxy.Proxy.Mcp.{mcp_session_header}
use mt_mcp_proxy.Proxy.World.{Env, World}
use mt_mcp_proxy.Proxy.Client.Quiet.{Quiet-wait}
use mt_mcp_proxy.Proxy.Catalog.Cache.{tools_for-Quiet}
use mt_mcp_proxy.Proxy.Provenance.{IsProven, Quiet-IsProven, delete_session-IsProven, mint-IsProven}
use mt_mcp_proxy.Proxy.ToolsCall.{Handler, prepared, handle_tools_call}
use mt_mcp_proxy.Proxy.ToolsList.{handle_tools_list, listed_tenants, authorized_of}
use mt_mcp_proxy.Proxy.Serve.{
  teardown_session, handle_initialize, handle_delete, serve_http, Arrival, serve_all,
}
use mt_mcp_proxy.Proxy.Serve.Dispatch.{serve_http-cases}
use mt_mcp_proxy.Proxy.Route.Provenance.{route_to_backend-IsProven}
use mt_mcp_proxy.Proxy.ToolsCall.Dispatch.{handle_tools_call-cases}
use mt_mcp_proxy.Proxy.Route.Quiet.{teardown_all-Quiet}

module _ (env : Env) (hd : Handler) (wf : IsWellFormed hd.registry.by_tenant) where
  abbrev Holds : World → Type 0
  Holds w = IsProven env hd.registry w

  handle_tools_call-Holds :
      (h : Dict String) (r : Request) (req : RpcRequest) (w : World)
      → Holds w
      → Holds (handle_tools_call env hd h r req w).2
  handle_tools_call-Holds h r req w v = handle_tools_call-cases Holds env hd h r w wf req (record {
    same = v;
    routes = λ groups t params clean s.
        route_to_backend-IsProven env hd.registry h (prepared env w.catalogs req.id t params clean)
          s.registered r w v;
  })

  handle_tools_list-Holds :
      (h : Dict String) (r : Request) (req : RpcRequest) (w : World)
      → Holds w
      → Holds (handle_tools_list env hd h r req w).1
  handle_tools_list-Holds h r req w v =
      unfold handle_tools_list in
      Quiet-IsProven env hd.registry
        (tools_for-Quiet env (listed_tenants hd (authorized_of hd (hd.verifier r))) w) v

  handle_initialize-Holds :
      (h : Dict String) (id : String) (req : RpcRequest) (w : World)
      → Holds w
      → Holds (handle_initialize env hd h id req w).1
  handle_initialize-Holds h id req w v = elim (Bool-cases (all_stateless hd.registry)) [
    | inl e ↦ unfold handle_initialize in rw e v
    | inr e ↦ unfold handle_initialize in rw e (mint-IsProven env hd.registry id w v)
  ]

  teardown_session-Holds :
      (o : Option Session) (w : World) → Holds w → Holds (teardown_session env hd o w)
  teardown_session-Holds none w v = v
  teardown_session-Holds (some sess) w v =
      Quiet-IsProven env hd.registry (teardown_all-Quiet env sess (tenants hd.registry) w) v

  handle_delete-Holds : (r : Request) (w : World) → Holds w → Holds (handle_delete env hd r w).1
  handle_delete-Holds r w v = elim (Bool-cases (all_stateless hd.registry)) [
    | inl e ↦ unfold handle_delete in rw e v
    | inr e ↦
        unfold handle_delete in
        rw e (
          let id = header_get r.headers (env.canonical mcp_session_header) in
          teardown_session-Holds (Session.delete_session id w.store).0 _
            (delete_session-IsProven env hd.registry id w v))
  ]

  pub serve_http-IsProven :
      (id : String) (r : Request) (w : World)
      → IsProven env hd.registry w
      → IsProven env hd.registry (serve_http env hd id r w).world
  serve_http-IsProven id r w v =
      serve_http-cases (λ _. Holds) env hd r w id v (handle_delete-Holds r w v)
        (λ h req. record {
          same = v;
          initialized = handle_initialize-Holds h id req w v;
          listed = handle_tools_list-Holds h r req w v;
          called = handle_tools_call-Holds h r req w v;
        })

  -- Let the store be well-formed, and each backend session id in it be one that the backend of
  -- its tenant returned to an `initialize` that carried that tenant's credential (as with no
  -- session at all). Then both hold again after any requests, one after the other, at any times.
  -- (The registry is well-formed.)
  pub serve_all-IsProven :
      (rs : List Arrival) (w : World)
      → IsProven env hd.registry w
      → IsProven env hd.registry (serve_all env hd rs w)
  unfolding serve_all
  serve_all-IsProven [] w v = v
  serve_all-IsProven (a ∷ rs) w v = serve_all-IsProven rs _ (
      serve_http-IsProven a.new_id a.request _
        (Quiet-IsProven env hd.registry (Quiet-wait w a.wait) v))
