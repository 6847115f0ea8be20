-- ===== src/Proxy/Route/Isolation.antt =====
-- Routing a call sends no session id but those that were opened for the call's tenant.
use mathlib.Core.List.{append_assoc, append-nil}
use mt_mcp_proxy.Base.{
  String, ◌≡◌, refl, sym, subst, ◌∙◌, ap, ◌⊎◌, inl, inr, Option, none, some, List, [], ◌++◌, ◌==◌,
  Result, ok, err, Bool-cases,
}
use mt_mcp_proxy.Base.Dict.{Dict}
use mt_mcp_proxy.Json.{Json}
use mt_mcp_proxy.Http.{Request, RpcRequest, header_get}
use mt_mcp_proxy.Registry.{Registry, Tenant, resolve_tenant, effective_credential, stateless}
use mt_mcp_proxy.Session
use mt_mcp_proxy.Session.{Session, backend_sid_of}
use mt_mcp_proxy.Session.Keeps.{get-stored}
use mt_mcp_proxy.Proxy.Mcp.{mcp_session_header}
use mt_mcp_proxy.Proxy.Schema.{inject_meta}
use mt_mcp_proxy.Proxy.World.{Env, World, Outgoing, Exchange, do_request}
use mt_mcp_proxy.Proxy.Client.{
  ClientError, post, initialize, init_request, notify_initialized, initialized_note, call_tool,
  call_stateless,
}
use mt_mcp_proxy.Proxy.Client.Credential.{Laid}
use mt_mcp_proxy.Proxy.Client.Headers.{PostTo, post_request-PostTo, Sends, Sends-none, Sends-trans}
use mt_mcp_proxy.Proxy.Catalog.{default_init_params}
use mt_mcp_proxy.Proxy.Provenance.{Opened, IsProven, Opened-grow, initialize-Opened, get-IsProven}
use mt_mcp_proxy.Proxy.Route.{
  Call, headers_of, forward, opened, with_session, in_session, route_to_backend,
}
use mt_mcp_proxy.Proxy.Route.Sent.{opened-Sends, in_session-Sends}

-- A request of the tenant, with no session id, or with one that was opened for the tenant by the
-- end of this log.
pub record Carries (env : Env) (reg : Registry) (t : Tenant) (params : Dict String)
    (log : List Exchange) (o : Outgoing) : Type 0 where
  pub sent : PostTo env t params o
  pub own : (sent.session_id ≡ "") ⊎ Opened env reg log t.id sent.session_id

-- The log begins with these exchanges.
record Extends (log start : List Exchange) : Type 0 where
  more : List Exchange
  grown : log ≡ start ++ more

Extends-refl : (log : List Exchange) → Extends log log
Extends-refl log = record { more = []; grown = sym (append-nil log) }

Extends-Sends :
    {P : Outgoing → Type 0} {w w' : World} (log : List Exchange)
    → Sends P w w'
    → Extends log w'.exchanged
    → Extends log w.exchanged
Extends-Sends {w = w} log s x = record {
  more = s.more ++ x.more;
  grown = x.grown ∙ ap (λ l. l ++ x.more) s.grown ∙ append_assoc w.exchanged s.more x.more;
}

module _ (env : Env) (reg : Registry) (h : Dict String) (c : Call)
    (found : resolve_tenant reg c.tenant.id ≡ ok c.tenant) where
  abbrev Own : List Exchange → World → World → Type 0
  Own log = Sends (Carries env reg c.tenant c.param_headers log)

  abbrev Known : List Exchange → String → Type 0
  Known log sid = Opened env reg log c.tenant.id sid

  Opened-Extends :
      (log start : List Exchange) (sid : String)
      → Extends log start
      → Known start sid
      → Known log sid
  Opened-Extends log start sid x o =
      subst (λ l. Known l sid) (sym x.grown) (Opened-grow env reg start x.more c.tenant.id sid o)

  post-Own :
      (log : List Exchange) (payload : RpcRequest) (sid : String) (extra : Dict String)
      (m n : String) (w : World)
      → Laid c.tenant c.param_headers extra
      → (sid ≡ "") ⊎ Known log sid
      → Own log w
          (post env c.tenant.backend payload sid (effective_credential c.tenant) extra m n w).1
  unfolding post do_request
  post-Own log payload sid extra m n w laid own = record {
    more = _;
    grown = refl;
    each = (
      record {
        sent = post_request-PostTo env c.tenant c.param_headers payload sid extra m n laid;
        own = own;
      },
      tt,
    );
  }

  notify_initialized-Own :
      (log : List Exchange) (sid : String) (w : World)
      → Known log sid
      → Own log w (notify_initialized env c.tenant.backend sid (effective_credential c.tenant) w)
  unfolding notify_initialized
  notify_initialized-Own log sid w known =
      post-Own log initialized_note sid [] "notifications/initialized" "" w (inl refl) (inr known)

  initialize-Own :
      (log : List Exchange) (w : World)
      → Own log w
          (initialize env c.tenant.backend default_init_params (effective_credential c.tenant) w).1
  unfolding initialize
  initialize-Own log w =
      post-Own log (init_request default_init_params) "" [] "initialize" "" w (inl refl) (inl refl)

  call_stateless-Own :
      (log : List Exchange) (o : Option Json) (sid : String) (w : World)
      → (sid ≡ "") ⊎ Known log sid
      → Own log w
          (call_stateless env c.tenant.backend c.request o sid
            (effective_credential c.tenant)
            (headers_of c)
            c.tool_name
            w).1
  call_stateless-Own log none sid w own = Sends-none w w refl
  call_stateless-Own log (some p) sid w own =
      post-Own log _ sid (headers_of c) "tools/call" c.tool_name w (inr refl) own

  forward-Own :
      (log : List Exchange) (sid : String) (w : World)
      → (sid ≡ "") ⊎ Known log sid
      → Own log w (forward env h c sid w).1
  unfolding forward
  forward-Own log sid w own = elim (Bool-cases (stateless c.tenant.backend)) [
    | inl e ↦
        unfold call_tool in rw e (call_stateless-Own log (inject_meta c.request.params) sid w own)
    | inr e ↦
        unfold call_tool in
        rw e (post-Own log c.request sid (headers_of c) "tools/call" c.tool_name w (inr refl) own)
  ]

  opened-Own :
      (log : List Exchange) (proxy_sid : String) (r : Result ClientError String) (w : World)
      → ((sid : String) → r ≡ ok sid → Known log sid)
      → Own log w (opened env h c proxy_sid r w).1
  opened-Own log proxy_sid (err e) w o = Sends-none w w refl
  opened-Own log proxy_sid (ok sid) w o = elim (Bool-cases (sid == "")) [
    | inl e ↦ rw e (Sends-trans (Sends-none w _ refl) (forward-Own log sid _ (inr (o sid refl))))
    | inr e ↦ rw e (
        Sends-trans (notify_initialized-Own log sid w (o sid refl))
          (Sends-trans (Sends-none _ _ refl) (forward-Own log sid _ (inr (o sid refl)))))
  ]

  with_session-Own :
      (log : List Exchange) (proxy_sid : String) (o : Option String) (w : World)
      → Extends log (with_session env h c proxy_sid o w).1.exchanged
      → ((sid : String) → o ≡ some sid → Known log sid)
      → Own log w (with_session env h c proxy_sid o w).1
  unfolding with_session
  with_session-Own log proxy_sid (some sid) w x known = forward-Own log sid w (inr (known sid refl))
  with_session-Own log proxy_sid none w x known =
      let r =
        (initialize env c.tenant.backend default_init_params (effective_credential c.tenant) w).0 in
      let w' =
        (initialize env c.tenant.backend default_init_params (effective_credential c.tenant) w).1 in
      Sends-trans (initialize-Own log w) (
        opened-Own log proxy_sid r w' (λ sid e.
          Opened-Extends log w'.exchanged sid
            (Extends-Sends log (opened-Sends env h c proxy_sid r w') x)
            (initialize-Opened env reg c.tenant sid w found e)))

  in_session-Own :
      (log : List Exchange) (proxy_sid : String) (o : Option Session) (w : World)
      → Extends log (in_session env h c proxy_sid o w).1.exchanged
      → ((sess : Session) (sid : String)
          → o ≡ some sess
          → backend_sid_of sess c.tenant.id ≡ some sid
          → Known log sid)
      → Own log w (in_session env h c proxy_sid o w).1
  unfolding in_session
  in_session-Own log proxy_sid none w x known = Sends-none w w refl
  in_session-Own log proxy_sid (some sess) w x known =
      with_session-Own log proxy_sid (backend_sid_of sess c.tenant.id) w x
        (λ sid e. known sess sid refl e)

  -- Take a call for a registered tenant, and a state that is as `serve_all` leaves it. What
  -- `routeToBackend` sends goes to the tenant's backend and is made with the tenant's credential,
  -- and over it are laid at most the tenant's configured headers and the parameter headers of the
  -- call. It is made for no session id, or for one that an `initialize` of that backend with that
  -- credential returned, in this request or before. The credential and the session id stand in
  -- their headers, unless a configured header or a parameter header has the same name (or the
  -- backend wants its credential in the session header), there is none, or, for the session id, the
  -- backend is stateless.
  pub route_to_backend-Carries :
      (r : Request) (w : World)
      → IsProven env reg w
      → Sends
          (Carries env reg c.tenant c.param_headers (route_to_backend env h r c w).1.exchanged)
          w
          (route_to_backend env h r c w).1
  route_to_backend-Carries r w v = elim (Bool-cases (stateless c.tenant.backend)) [
    | inl e ↦ unfold route_to_backend in rw e (forward-Own _ "" w (inl refl))
    | inr e ↦
        unfold route_to_backend in
        rw e (
          let id = header_get r.headers (env.canonical mcp_session_header) in
          let found_sess = (Session.get id w.now w.store).0 in
          let w' = record w { store = (Session.get id w.now w.store).1 } in
          let log = (in_session env h c id found_sess w').1.exchanged in
          Sends-trans (Sends-none w w' refl) (
            in_session-Own log id found_sess w' (Extends-refl log) (λ sess sid e b.
              Opened-Extends log w'.exchanged sid
                (Extends-Sends log (in_session-Sends env h c id found_sess w') (Extends-refl log))
                ((get-IsProven env reg id w v).proven id sess c.tenant.id sid
                  (get-stored id w.now w.store v.valid.nodup sess e) b))))
  ]
