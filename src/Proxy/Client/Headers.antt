-- ===== src/Proxy/Client/Headers.antt =====
-- What a client call sends, and that it leaves the rest of the state alone.
use mt_mcp_proxy.Base.{
  String, ◌≡◌, refl, ◌∙◌, sym, ap, Option, none, some, List, [], ◌∷◌, ◌++◌, All, inl, inr,
  Bool-cases,
}
use mathlib.Core.List.{append-nil, append_assoc}
use mt_mcp_proxy.Base.Dict.{Dict}
use mt_mcp_proxy.Json.{Json}
use mt_mcp_proxy.Http.{RpcRequest}
use mt_mcp_proxy.Registry.{Tenant, effective_credential, stateless}
use mt_mcp_proxy.Proxy.ParamHeaders.{merge_headers}
use mt_mcp_proxy.Proxy.Client.Credential.{
  Laid, HasCredential, post_request-HasCredential, HasSession, post_request-HasSession,
}
use mt_mcp_proxy.Proxy.World.{Env, World, Outgoing, Exchange, do_request}
use mt_mcp_proxy.Proxy.Schema.{inject_meta}
use mt_mcp_proxy.Proxy.Client.{
  post_request, post, initialize, init_request, notify_initialized, initialized_note, call_tool,
  call_stateless,
}

-- A request to the tenant's backend, made with the tenant's credential: over it are laid at most the
-- tenant's own headers and these parameters, and it carries the credential and the session id.
pub record PostTo (env : Env) (t : Tenant) (params : Dict String) (o : Outgoing) : Type 0 where
  pub payload : RpcRequest
  pub session_id : String
  pub extra : Dict String
  pub mcp_method : String
  pub mcp_name : String
  pub laid : Laid t params extra
  pub built :
      o
      ≡ post_request env t.backend payload session_id
          (effective_credential t)
          extra
          mcp_method
          mcp_name
  pub credential : HasCredential env t params o
  pub session : HasSession env t params session_id o

-- From `w` to `w'` only requests that satisfy `P` were sent.
pub record Sends (P : Outgoing → Type 0) (w w' : World) : Type 0 where
  pub more : List Exchange
  pub grown : w'.exchanged ≡ w.exchanged ++ more
  pub each : All (λ e. P e.request) more

All-append :
    (P : Exchange → Type 0) (xs ys : List Exchange) → All P xs → All P ys → All P (xs ++ ys)
All-append P [] ys h k = k
All-append P (x ∷ xs) ys (p, h) k = (p, All-append P xs ys h k)

module _ {P : Outgoing → Type 0} where
  pub Sends-none : (w w' : World) → w'.exchanged ≡ w.exchanged → Sends P w w'
  Sends-none w w' e = record { more = []; grown = e ∙ sym (append-nil w.exchanged); each = tt }

  pub Sends-trans : {w w' w'' : World} → Sends P w w' → Sends P w' w'' → Sends P w w''
  Sends-trans {w} {w'} {w''} s t = record {
    more = s.more ++ t.more;
    grown = t.grown ∙ ap (λ l. l ++ t.more) s.grown ∙ append_assoc w.exchanged s.more t.more;
    each = All-append (λ e. P e.request) s.more t.more s.each t.each;
  }

pub Sends-map :
    {P Q : Outgoing → Type 0} {w w' : World}
    → ((o : Outgoing) → P o → Q o)
    → Sends P w w'
    → Sends Q w w'
Sends-map {P} {Q} f s = record { more = s.more; grown = s.grown; each = go s.more s.each }
  where
    go : (l : List Exchange) → All (λ e. P e.request) l → All (λ e. Q e.request) l
    go [] h = tt
    go (e ∷ l) (p, h) = (f e.request p, go l h)

module _ (env : Env) (t : Tenant) (params : Dict String) where
  abbrev cred : String
  cred = effective_credential t

  abbrev pub post_request-PostTo :
      (payload : RpcRequest) (sid : String) (extra : Dict String) (m n : String)
      → Laid t params extra
      → PostTo env t params (post_request env t.backend payload sid cred extra m n)
  post_request-PostTo payload sid extra m n laid = record {
    payload = payload;
    session_id = sid;
    extra = extra;
    mcp_method = m;
    mcp_name = n;
    laid = laid;
    built = refl;
    credential = post_request-HasCredential env t params payload sid extra m n laid;
    session = post_request-HasSession env t params payload sid extra m n laid;
  }

  post-Sends :
      (payload : RpcRequest) (sid : String) (extra : Dict String) (m n : String) (w : World)
      → Laid t params extra
      → Sends (PostTo env t params) w (post env t.backend payload sid cred extra m n w).1
  unfolding post do_request
  post-Sends payload sid extra m n w laid = record {
    more = _;
    grown = refl;
    each = (post_request-PostTo payload sid extra m n laid, tt);
  }

  pub initialize-Sends :
      (init : Json) (w : World)
      → Sends (PostTo env t params) w (initialize env t.backend init cred w).1
  unfolding initialize
  initialize-Sends init w = post-Sends (init_request init) "" [] "initialize" "" w (inl refl)

  pub notify_initialized-Sends :
      (sid : String) (w : World)
      → Sends (PostTo env t params) w (notify_initialized env t.backend sid cred w)
  unfolding notify_initialized
  notify_initialized-Sends sid w =
      post-Sends initialized_note sid [] "notifications/initialized" "" w (inl refl)

  -- The headers of a call.
  abbrev merged : Dict String
  merged = merge_headers t.headers params

  call_stateless-Sends :
      (sid : String) (req : RpcRequest) (o : Option Json) (tool : String) (w : World)
      → Sends (PostTo env t params) w (call_stateless env t.backend req o sid cred merged tool w).1
  call_stateless-Sends sid req none tool w = Sends-none w w refl
  call_stateless-Sends sid req (some p) tool w =
      post-Sends _ sid merged "tools/call" tool w (inr refl)

  pub call_tool-Sends :
      (sid : String) (req : RpcRequest) (tool : String) (w : World)
      → Sends (PostTo env t params) w (call_tool env t.backend sid cred req merged tool w).1
  call_tool-Sends sid req tool w = elim (Bool-cases (stateless t.backend)) [
    | inl e ↦
        unfold call_tool in rw e (call_stateless-Sends sid req (inject_meta req.params) tool w)
    | inr e ↦ unfold call_tool in rw e (post-Sends req sid merged "tools/call" tool w (inr refl))
  ]
