-- ===== src/Proxy/Client/Quiet.antt =====
-- Client calls leave the store alone: they only send requests and let time pass.
use mathlib.Core.List.{append_assoc, append-nil}
use native.Mathlib.Nat.{le_trans, le_refl, le-add_right}
use mt_mcp_proxy.Base.{
  ℕ, ◌+◌, ◌≤◌, String, ◌≡◌, refl, sym, ◌∙◌, ap, inl, inr, Option, none, some, List, [], ◌++◌,
  Bool-cases,
}
use mt_mcp_proxy.Base.Dict.{Dict}
use mt_mcp_proxy.Json.{Json}
use mt_mcp_proxy.Http.{RpcRequest}
use mt_mcp_proxy.Registry.{Backend, stateless}
use mt_mcp_proxy.Proxy.Schema.{inject_meta}
use mt_mcp_proxy.Proxy.World.{Env, World, Outgoing, Exchange, Catalogs, do_request}
use mt_mcp_proxy.Proxy.Client.{
  post, post_request, initialize, init_request, initialized_note, notify_initialized, call_tool,
  list_tools, list_request, call_stateless,
}

-- From `w` to `w'` requests may have been sent; the store is the same.
pub record Quiet (w w' : World) : Type 0 where
  pub store : w'.store ≡ w.store
  pub later : w.now ≤ w'.now
  pub more : List Exchange
  pub grown : w'.exchanged ≡ w.exchanged ++ more

pub Quiet-refl : (w : World) → Quiet w w
Quiet-refl w = record {
  store = refl;
  later = le_refl w.now;
  more = [];
  grown = sym (append-nil w.exchanged);
}

pub Quiet-catalogs : (w : World) (cs : Catalogs) → Quiet w (record w { catalogs = cs })
Quiet-catalogs w cs = record {
  store = refl;
  later = le_refl w.now;
  more = [];
  grown = sym (append-nil w.exchanged);
}

pub Quiet-wait : (w : World) (n : ℕ) → Quiet w (record w { now = w.now + n })
Quiet-wait w n = record {
  store = refl;
  later = le-add_right w.now n;
  more = [];
  grown = sym (append-nil w.exchanged);
}

pub Quiet-trans : {w w' w'' : World} → Quiet w w' → Quiet w' w'' → Quiet w w''
Quiet-trans {w} p q = record {
  store = q.store ∙ p.store;
  later = le_trans p.later q.later;
  more = p.more ++ q.more;
  grown = q.grown ∙ ap (λ l. l ++ q.more) p.grown ∙ append_assoc w.exchanged p.more q.more;
}

pub do_request-Quiet : (env : Env) (o : Outgoing) (w : World) → Quiet w (do_request env o w).1
unfolding do_request
do_request-Quiet env o w = record {
  store = refl;
  later = le-add_right w.now _;
  more = _;
  grown = refl;
}

post-Quiet :
    (env : Env) (b : Backend) (payload : RpcRequest) (sid cred : String) (extra : Dict String)
    (m n : String) (w : World)
    → Quiet w (post env b payload sid cred extra m n w).1
post-Quiet env b payload sid cred extra m n w =
    unfold post in do_request-Quiet env (post_request env b payload sid cred extra m n) w

call_stateless-Quiet :
    (env : Env) (b : Backend) (req : RpcRequest) (o : Option Json) (sid cred : String)
    (hs : Dict String) (tool : String) (w : World)
    → Quiet w (call_stateless env b req o sid cred hs tool w).1
call_stateless-Quiet env b req none sid cred hs tool w = Quiet-refl w
call_stateless-Quiet env b req (some p) sid cred hs tool w =
    post-Quiet env b _ sid cred hs "tools/call" tool w

pub call_tool-Quiet :
    (env : Env) (b : Backend) (sid cred : String) (req : RpcRequest) (hs : Dict String)
    (tool : String) (w : World)
    → Quiet w (call_tool env b sid cred req hs tool w).1
call_tool-Quiet env b sid cred req hs tool w = elim (Bool-cases (stateless b)) [
  | inl e ↦
      unfold call_tool in
      rw e (call_stateless-Quiet env b req (inject_meta req.params) sid cred hs tool w)
  | inr e ↦ unfold call_tool in rw e (post-Quiet env b req sid cred hs "tools/call" tool w)
]

pub initialize-Quiet :
    (env : Env) (b : Backend) (params : Json) (cred : String) (w : World)
    → Quiet w (initialize env b params cred w).1
unfolding initialize
initialize-Quiet env b params cred w =
    post-Quiet env b (init_request params) "" cred [] "initialize" "" w

pub notify_initialized-Quiet :
    (env : Env) (b : Backend) (sid cred : String) (w : World)
    → Quiet w (notify_initialized env b sid cred w)
unfolding notify_initialized
notify_initialized-Quiet env b sid cred w =
    post-Quiet env b initialized_note sid cred [] "notifications/initialized" "" w

pub list_tools-Quiet :
    (env : Env) (b : Backend) (sid cred : String) (hs : Dict String) (w : World)
    → Quiet w (list_tools env b sid cred hs w).1
unfolding list_tools
list_tools-Quiet env b sid cred hs w =
    post-Quiet env b (list_request b) sid cred hs "tools/list" "" w
