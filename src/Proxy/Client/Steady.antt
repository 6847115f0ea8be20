-- ===== src/Proxy/Client/Steady.antt =====
-- Client calls leave the catalogs alone, and the clock does not go back.
use native.Mathlib.Nat.{le_trans, le_refl, le-add_right}
use mt_mcp_proxy.Base.{
  ℕ, ◌+◌, ◌≤◌, String, ◌≡◌, refl, ◌∙◌, inl, inr, Option, none, some, [], Bool-cases,
}
use mt_mcp_proxy.Base.Dict.{Dict}
use mt_mcp_proxy.Json.{Json}
use mt_mcp_proxy.Http.{RpcRequest}
use mt_mcp_proxy.Registry.{Backend, stateless}
use mt_mcp_proxy.Session.{Store}
use mt_mcp_proxy.Proxy.Schema.{inject_meta}
use mt_mcp_proxy.Proxy.World.{Env, World, Outgoing, do_request}
use mt_mcp_proxy.Proxy.Client.{
  post, post_request, initialize, init_request, initialized_note, notify_initialized, call_tool,
  list_tools, list_request, call_stateless,
}

-- From `w` to `w'` the catalogs are the same and time may have passed.
pub record Steady (w w' : World) : Type 0 where
  pub catalogs : w'.catalogs ≡ w.catalogs
  pub later : w.now ≤ w'.now

pub Steady-refl : (w : World) → Steady w w
Steady-refl w = record { catalogs = refl; later = le_refl w.now }

pub Steady-trans : {w w' w'' : World} → Steady w w' → Steady w' w'' → Steady w w''
Steady-trans p q = record { catalogs = q.catalogs ∙ p.catalogs; later = le_trans p.later q.later }

pub Steady-store : (w : World) (store : Store) → Steady w (record w { store = store })
Steady-store w store = record { catalogs = refl; later = le_refl w.now }

pub Steady-wait : (w : World) (n : ℕ) → Steady w (record w { now = w.now + n })
Steady-wait w n = record { catalogs = refl; later = le-add_right w.now n }

module _ (env : Env) where
  pub do_request-Steady : (o : Outgoing) (w : World) → Steady w (do_request env o w).1
  unfolding do_request
  do_request-Steady o w = record { catalogs = refl; later = le-add_right w.now _ }

  post-Steady :
      (b : Backend) (payload : RpcRequest) (sid cred : String) (extra : Dict String) (m n : String)
      (w : World)
      → Steady w (post env b payload sid cred extra m n w).1
  post-Steady b payload sid cred extra m n w =
      unfold post in do_request-Steady (post_request env b payload sid cred extra m n) w

  call_stateless-Steady :
      (b : Backend) (req : RpcRequest) (o : Option Json) (sid cred : String) (hs : Dict String)
      (tool : String) (w : World)
      → Steady w (call_stateless env b req o sid cred hs tool w).1
  call_stateless-Steady b req none sid cred hs tool w = Steady-refl w
  call_stateless-Steady b req (some p) sid cred hs tool w =
      post-Steady b _ sid cred hs "tools/call" tool w

  pub call_tool-Steady :
      (b : Backend) (sid cred : String) (req : RpcRequest) (hs : Dict String) (tool : String)
      (w : World)
      → Steady w (call_tool env b sid cred req hs tool w).1
  call_tool-Steady b sid cred req hs tool w = elim (Bool-cases (stateless b)) [
    | inl e ↦
        unfold call_tool in
        rw e (call_stateless-Steady b req (inject_meta req.params) sid cred hs tool w)
    | inr e ↦ unfold call_tool in rw e (post-Steady b req sid cred hs "tools/call" tool w)
  ]

  pub initialize-Steady :
      (b : Backend) (params : Json) (cred : String) (w : World)
      → Steady w (initialize env b params cred w).1
  unfolding initialize
  initialize-Steady b params cred w =
      post-Steady b (init_request params) "" cred [] "initialize" "" w

  pub notify_initialized-Steady :
      (b : Backend) (sid cred : String) (w : World) → Steady w (notify_initialized env b sid cred w)
  unfolding notify_initialized
  notify_initialized-Steady b sid cred w =
      post-Steady b initialized_note sid cred [] "notifications/initialized" "" w

  pub list_tools-Steady :
      (b : Backend) (sid cred : String) (hs : Dict String) (w : World)
      → Steady w (list_tools env b sid cred hs w).1
  unfolding list_tools
  list_tools-Steady b sid cred hs w = post-Steady b (list_request b) sid cred hs "tools/list" "" w
