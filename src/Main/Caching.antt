-- ===== src/Main/Caching.antt =====
-- The tool catalogs in any run of the program: requests and ticks share what was fetched.
use mt_mcp_proxy.Base.{ℕ, ◌-◌, ◌<◌, ◌≡◌, some, List, [], ◌∷◌, ok, get_elem?}
use mt_mcp_proxy.Registry.Build.{IsWellFormed}
use mt_mcp_proxy.Proxy.Mcp.{RawTool}
use mt_mcp_proxy.Proxy.World.{Env, CatalogEntry}
use mt_mcp_proxy.Proxy.Client.Steady.{Steady-wait}
use mt_mcp_proxy.Proxy.Catalog.{get}
use mt_mcp_proxy.Proxy.Catalog.Fresh.{Keeps, Steady-Keeps, warm-Keeps, get-fresh}
use mt_mcp_proxy.Proxy.Serve.Fresh.{serve_http-Keeps}
use mt_mcp_proxy.Main.{
  App, Warmup, retrying, warm_done, Running, attempt, Event, request, tick, cancel, later, ticked,
  served, step, run_events,
}

module _ (env : Env) (a : App) (wf : IsWellFormed a.handler.registry.by_tenant) (i : ℕ)
    (c : CatalogEntry) where
  ticked-Keeps : (p : Warmup) (s : Running) → Keeps i c s.world → Keeps i c (ticked env p s).world
  ticked-Keeps warm_done s k = k
  ticked-Keeps retrying s k = unfold attempt in warm-Keeps env i c s.world k

  step-Keeps : (e : Event) (s : Running) → Keeps i c s.world → Keeps i c (step env a e s).world
  unfolding step served
  step-Keeps (request r) s k =
      serve_http-Keeps env a.handler wf i c r.new_id r.request _
        (Steady-Keeps i c (Steady-wait s.world r.wait) k)
  step-Keeps (tick wait) s k =
      ticked-Keeps s.warmup (record s { world = later wait s.world })
        (Steady-Keeps i c (Steady-wait s.world wait) k)
  step-Keeps cancel s k = k

  run_events-Keeps :
      (es : List Event) (s : Running) → Keeps i c s.world → Keeps i c (run_events env a es s).world
  unfolding run_events
  run_events-Keeps [] s k = k
  run_events-Keeps (e ∷ es) s k = run_events-Keeps es (step env a e s) (step-Keeps e s k)

  -- A tool list that a catalog has fetched is not fetched again before its time: whatever requests
  -- and ticks of the warm-up come in between, as long as the list is younger than the time to live,
  -- `get` on that catalog returns it, sends nothing and changes nothing. (The registry is
  -- well-formed.)
  pub run_events-serves :
      (es : List Event) (s : Running) (ts : List RawTool)
      → get_elem? s.world.catalogs.unique i ≡ some c
      → c.tools ≡ some ts
      → (run_events env a es s).world.now - c.fetched_at < c.ttl
      → get env i (run_events env a es s).world ≡ (ok (some ts), (run_events env a es s).world)
  run_events-serves es s ts placed tools young =
      get-fresh env i c (run_events env a es s).world ts
        (run_events-Keeps es s (record { placed = λ fresh. placed })) tools young
