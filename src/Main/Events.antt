-- ===== src/Main/Events.antt =====
-- The running program: requests and the ticks of the warm-up, in any order.
use mt_mcp_proxy.Base.{ℕ, zero, suc, String, ◌≡◌, subst, List, [], ◌∷◌, ok, length}
use mt_mcp_proxy.Base.Dict.{lookup}
use mt_mcp_proxy.Registry.Build.{IsWellFormed}
use mt_mcp_proxy.Session.{new_store}
use mt_mcp_proxy.Proxy.World.{Env, World}
use mt_mcp_proxy.Proxy.Client.Quiet.{Quiet, Quiet-refl, Quiet-trans, Quiet-wait}
use mt_mcp_proxy.Proxy.Catalog.{get, warm_from, warm}
use mt_mcp_proxy.Proxy.Catalog.Cache.{get-Quiet}
use mt_mcp_proxy.Proxy.Provenance.{IsProven, Quiet-IsProven}
use mt_mcp_proxy.Proxy.Serve.Provenance.{serve_http-IsProven}
use mt_mcp_proxy.Main.{
  Outside, App, start, Warmup, retrying, warm_done, Running, attempt, Event, request, tick, cancel,
  later, ticked, served, step, run_events, run, no_metrics,
}
use mt_mcp_proxy.Main.Start.{Built, start-Built, start-IsWellFormed}

module _ (env : Env) where
  warm_from-Quiet : (i n : ℕ) (w : World) → Quiet w (warm_from env i n w).1
  unfolding warm_from
  warm_from-Quiet i zero w = Quiet-refl w
  warm_from-Quiet i (suc n) w =
      Quiet-trans (get-Quiet env i w) (warm_from-Quiet (suc i) n (get env i w).1)

  pub attempt-Quiet : (s : Running) → Quiet s.world (attempt env s).world
  unfolding attempt warm
  attempt-Quiet s = warm_from-Quiet 0 (length s.world.catalogs.unique) s.world

  pub ticked-Quiet : (p : Warmup) (s : Running) → Quiet s.world (ticked env p s).world
  ticked-Quiet warm_done s = Quiet-refl s.world
  ticked-Quiet retrying s = attempt-Quiet s

  module _ (a : App) (wf : IsWellFormed a.handler.registry.by_tenant) where
    abbrev Holds : World → Type 0
    Holds w = IsProven env a.handler.registry w

    step-Holds : (e : Event) (s : Running) → Holds s.world → Holds (step env a e s).world
    unfolding step served
    step-Holds (request r) s v =
        serve_http-IsProven env a.handler wf r.new_id r.request _
          (Quiet-IsProven env a.handler.registry (Quiet-wait s.world r.wait) v)
    step-Holds (tick wait) s v =
        Quiet-IsProven env a.handler.registry
          (Quiet-trans (Quiet-wait s.world wait)
            (ticked-Quiet s.warmup (record s { world = later wait s.world })))
          v
    step-Holds cancel s v = v

    run_events-Holds :
        (es : List Event) (s : Running) → Holds s.world → Holds (run_events env a es s).world
    unfolding run_events
    run_events-Holds [] s v = v
    run_events-Holds (e ∷ es) s v = run_events-Holds es (step env a e s) (step-Holds e s v)

    run-Holds : (es : List Event) → Holds a.world → Holds (run env a es).world
    unfolding run
    run-Holds es v =
        let begun : Running = record { warmup = retrying; world = a.world; metrics = no_metrics } in
        run_events-Holds es (attempt env begun)
          (Quiet-IsProven env a.handler.registry (attempt-Quiet begun) v)

module _ {PublicKey KeySet : Type 0} (o : Outside PublicKey KeySet) where
  Built-IsProven :
      (version path : String) (now : ℕ) (a : App)
      → Built o version path now a
      → IsProven o.network a.handler.registry a.world
  unfolding new_store lookup
  Built-IsProven version path now a b =
      subst (λ x. IsProven o.network x.handler.registry x.world) b.same
        (record {
          valid = record { nodup = tt; sound = λ k sess h. cc h };
          proven = λ k sess id sid h _. cc h;
        })

  -- What `run` has built and then serves keeps the backend sessions apart, however the requests
  -- and the ticks of the warm-up follow one another: at every time the store is well-formed, and
  -- each backend session id in it was returned by the backend of its tenant to an `initialize` that
  -- carried that tenant's credential.
  pub run-IsProven :
      (version path : String) (now : ℕ) (a : App) (es : List Event)
      → start o version path now ≡ ok a
      → IsProven o.network a.handler.registry (run o.network a es).world
  run-IsProven version path now a es h =
      run-Holds o.network a (start-IsWellFormed o version path now a h) es
        (Built-IsProven version path now a (start-Built o version path now a h))
