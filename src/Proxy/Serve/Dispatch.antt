-- ===== src/Proxy/Serve/Dispatch.antt =====
-- internal/proxy/handler.go: what holds after every handler that `ServeHTTP` may choose holds after it.
use mt_mcp_proxy.Base.{Bool, false, not, String, inl, inr, ◌==◌, Bool-cases}
use mt_mcp_proxy.Base.Dict.{Dict}
use mt_mcp_proxy.Http.{Request, RpcRequest, Body, unreadable, malformed, decoded}
use mt_mcp_proxy.Proxy.Mcp.{is_notification}
use mt_mcp_proxy.Proxy.World.{Env, World}
use mt_mcp_proxy.Proxy.ToolsCall.{Handler, handle_tools_call}
use mt_mcp_proxy.Proxy.ToolsList.{handle_tools_list}
use mt_mcp_proxy.Proxy.Serve.{
  Served, handle_initialize, handle_delete, serve_rpc, serve_post, serve_http,
}
use mt_mcp_proxy.Registry.{all_stateless}

module _ (P : Bool → World → Type 0) (env : Env) (hd : Handler) (r : Request) (w : World) where
  -- It holds of what a request leaves, with whether it counts as a session.
  abbrev pub Leaves : Served → Type 0
  Leaves out = P out.opens out.world

  -- It holds before the request, and after each handler that the JSON-RPC method may choose.
  pub record Handled (id : String) (h : Dict String) (req : RpcRequest) : Type 0 where
    pub same : P false w
    pub initialized : P (not (all_stateless hd.registry)) (handle_initialize env hd h id req w).1
    pub listed : P false (handle_tools_list env hd h r req w).1
    pub called : P false (handle_tools_call env hd h r req w).2

  serve_rpc-cases :
      (h : Dict String) (id : String) (req : RpcRequest)
      → Handled id h req
      → Leaves (serve_rpc env hd h id r req w)
  serve_rpc-cases h id req c =
      unfold serve_rpc in
      elim (Bool-cases (req.method == "initialize")) [
        | inl a ↦ rw a c.initialized
        | inr a ↦ rw a (elim (Bool-cases (req.method == "notifications/initialized")) [
          | inl b ↦ rw b c.same
          | inr b ↦ rw b (elim (Bool-cases (req.method == "server/discover")) [
            | inl d ↦ rw d c.same
            | inr d ↦ rw d (elim (Bool-cases (req.method == "tools/list")) [
              | inl e ↦ rw e c.listed
              | inr e ↦ rw e (elim (Bool-cases (req.method == "tools/call")) [
                | inl f ↦ rw f c.called
                | inr f ↦ rw f (elim (Bool-cases (req.method == "ping")) [
                  | inl g ↦ rw g c.same
                  | inr g ↦ rw g (elim (Bool-cases (is_notification req)) [
                    | inl i ↦ rw i c.same
                    | inr i ↦ rw i c.same
                  ])
                ])
              ])
            ])
          ])
        ])
      ]

  serve_post-cases :
      (id : String) (b : Body)
      → P false w
      → ((h : Dict String) (req : RpcRequest) → Handled id h req)
      → Leaves (serve_post env hd id r b w)
  unfolding serve_post
  serve_post-cases id unreadable v c = v
  serve_post-cases id malformed v c = v
  serve_post-cases id (decoded req) v c = serve_rpc-cases _ id req (c _ req)

  pub serve_http-cases :
      (id : String)
      → P false w
      → P false (handle_delete env hd r w).1
      → ((h : Dict String) (req : RpcRequest) → Handled id h req)
      → Leaves (serve_http env hd id r w)
  serve_http-cases id v deleted c =
      unfold serve_http in
      elim (Bool-cases (r.method == "DELETE")) [
        | inl a ↦ rw a deleted
        | inr a ↦ rw a (elim (Bool-cases (r.method == "GET")) [
          | inl b ↦ rw b v
          | inr b ↦ rw b (elim (Bool-cases (r.method == "POST")) [
            | inl e ↦ rw e (serve_post-cases id r.body v c)
            | inr e ↦ rw e v
          ])
        ])
      ]
