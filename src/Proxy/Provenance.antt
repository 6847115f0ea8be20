-- ===== src/Proxy/Provenance.antt =====
-- Where the backend session ids of the store come from.
use mt_mcp_proxy.Base.{String, ◌≡◌, refl, sym, subst, inl, inr, some, List, [], ◌++◌, ok, In}
use mt_mcp_proxy.Base.Member.{In-left, In-last}
use mt_mcp_proxy.Base.Dict.{lookup}
use mt_mcp_proxy.Registry.{Registry, Tenant, resolve_tenant, effective_credential}
use mt_mcp_proxy.Session
use mt_mcp_proxy.Session.{Session, Store, backend_sid_of}
use mt_mcp_proxy.Session.Invariant.{
  IsValid, IsValid-later, get-IsValid, set_backend_sid-IsValid, mint-IsValid,
  delete_session-IsValid,
}
use mt_mcp_proxy.Session.Keeps.{
  Keeps, get-Keeps, mint-Keeps, delete_session-Keeps, set_backend_sid-origin,
}
use mt_mcp_proxy.Proxy.World.{Env, World, Exchange, do_request}
use mt_mcp_proxy.Proxy.Client.{
  post_request, post, post_response, initialize, init_request, init_response,
}
use mt_mcp_proxy.Proxy.Client.Quiet.{Quiet}
use mt_mcp_proxy.Proxy.Catalog.{default_init_params}

-- The session id came back from an `initialize` that was sent to the tenant's backend with the
-- tenant's credential.
pub record Opened (env : Env) (reg : Registry) (log : List Exchange) (id sid : String)
    : Type 0 where
  pub tenant : Tenant
  pub registered : resolve_tenant reg id ≡ ok tenant
  pub exchange : Exchange
  pub logged : In exchange log
  pub asked :
      exchange.request
      ≡ post_request env tenant.backend
          (init_request default_init_params)
          ""
          (effective_credential tenant)
          []
          "initialize"
          ""
  pub answered : init_response env (post_response env exchange.reply.response) ≡ ok sid

-- The store is well-formed, and every backend session id in it was opened for its tenant.
pub record IsProven (env : Env) (reg : Registry) (w : World) : Type 0 where
  pub valid : IsValid w.now w.store
  pub proven :
      (k : String) (sess : Session) (id sid : String)
      → lookup k w.store.m ≡ some sess
      → backend_sid_of sess id ≡ some sid
      → Opened env reg w.exchanged id sid

module _ (env : Env) (reg : Registry) where
  pub Opened-grow :
      (log more : List Exchange) (id sid : String)
      → Opened env reg log id sid
      → Opened env reg (log ++ more) id sid
  Opened-grow log more id sid o = record {
    tenant = o.tenant;
    registered = o.registered;
    exchange = o.exchange;
    logged = In-left o.exchange log more o.logged;
    asked = o.asked;
    answered = o.answered;
  }

  pub Opened-Quiet :
      {w w' : World}
      → Quiet w w'
      → (id sid : String) → Opened env reg w.exchanged id sid
      → Opened env reg w'.exchanged id sid
  Opened-Quiet {w} q id sid o = rw q.grown (Opened-grow w.exchanged q.more id sid o)

  pub Quiet-IsProven : {w w' : World} → Quiet w w' → IsProven env reg w → IsProven env reg w'
  Quiet-IsProven {w} {w'} q v = record {
    valid = rw q.store (IsValid-later w.now w'.now w.store q.later v.valid);
    proven = λ k sess id sid e b.
        rw q.grown
          (Opened-grow w.exchanged q.more id sid (v.proven k sess id sid (rw q.store at e) b));
  }

  -- A new store whose sessions all map what they mapped before.
  Keeps-IsProven :
      (w : World) (s : Store)
      → IsValid w.now s
      → Keeps w.store s
      → IsProven env reg w
      → IsProven env reg (record w { store = s })
  unfolding backend_sid_of
  Keeps-IsProven w s valid keeps v = record {
    valid = valid;
    proven = λ k sess id sid e b.
        let (old, found, same) = keeps k sess e in
        v.proven k old id sid found (subst (λ m. lookup id m ≡ some sid) (sym same) b);
  }

  pub get-IsProven :
      (id : String) (w : World)
      → IsProven env reg w
      → IsProven env reg (record w { store = (Session.get id w.now w.store).1 })
  get-IsProven id w v =
      Keeps-IsProven w _ (get-IsValid w.now id w.store v.valid)
        (get-Keeps id w.now w.store v.valid.nodup) v

  pub delete_session-IsProven :
      (id : String) (w : World)
      → IsProven env reg w
      → IsProven env reg (record w { store = (Session.delete_session id w.store).1 })
  delete_session-IsProven id w v =
      Keeps-IsProven w _ (delete_session-IsValid w.now id w.store v.valid)
        (delete_session-Keeps id w.store) v

  pub mint-IsProven :
      (id : String) (w : World)
      → IsProven env reg w
      → IsProven env reg (record w { store = (Session.mint id w.now w.store).1 })
  mint-IsProven id w v = record {
    valid = mint-IsValid w.now id w.store v.valid;
    proven = λ k sess tid sid e b. elim (mint-Keeps id w.now w.store v.valid.nodup k sess e) [
      | inl fresh ↦ cc (fresh tid, b)
      | inr (old, found, same) ↦
          v.proven k old tid sid found
            (unfold backend_sid_of in subst (λ m. lookup tid m ≡ some sid) (sym same) b)
    ];
  }

  -- The id that `SetBackendSID` stores was opened for its tenant.
  pub set_backend_sid-IsProven :
      (proxy_sid id sid : String) (w : World)
      → Opened env reg w.exchanged id sid
      → IsProven env reg w
      → IsProven env reg
          (record w { store = Session.set_backend_sid proxy_sid id sid w.now w.store })
  set_backend_sid-IsProven proxy_sid id sid w o v = record {
    valid = set_backend_sid-IsValid w.now proxy_sid id sid w.store v.valid;
    proven = λ k sess tid s e b.
        elim (set_backend_sid-origin proxy_sid id sid w.now w.store k sess tid s e b) [
          | inl (p, q) ↦
              subst (λ x. Opened env reg w.exchanged x s) p
                (subst (Opened env reg w.exchanged id) q o)
          | inr (old, found, same) ↦ v.proven k old tid s found same
        ];
  }

  -- An `initialize` for a registered tenant that returns a session id opens it.
  pub initialize-Opened :
      (t : Tenant) (sid : String) (w : World)
      → resolve_tenant reg t.id ≡ ok t
      → (initialize env t.backend default_init_params (effective_credential t) w).0 ≡ ok sid
      → Opened env reg
          (initialize env t.backend default_init_params (effective_credential t) w).1.exchanged
          t.id
          sid
  unfolding initialize post do_request
  initialize-Opened t sid w found h = record {
    tenant = t;
    registered = found;
    exchange = _;
    logged = In-last _ w.exchanged;
    asked = refl;
    answered = h;
  }
