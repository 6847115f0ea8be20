-- ===== src/Main/Sessions.antt =====
-- The session counter in any run of the program.
use native.Mathlib.Nat.{le_trans, le_refl}
use mt_mcp_proxy.Base.{
  ℕ, ◌+◌, ◌≤◌, String, ◌≡◌, refl, subst, Bool, true, false, Option, none, some, List, [], ◌∷◌,
  arith, ok, sym, ◌-◌,
}
use mt_mcp_proxy.Registry.Build.{IsWellFormed}
use mt_mcp_proxy.Session.{new_store}
use mt_mcp_proxy.Session.Size.{size}
use mt_mcp_proxy.Observability.{
  Observability, ToolCallAttrs, Metrics, record_tool_call, record_session,
}
use mt_mcp_proxy.Proxy.World.{Env}
use mt_mcp_proxy.Proxy.Route.Sessions.{Shrinks, Quiet-Shrinks}
use mt_mcp_proxy.Proxy.Serve.{serve_http}
use mt_mcp_proxy.Proxy.Serve.Sessions.{one_if, serve_http-Grows}
use mt_mcp_proxy.Main.{
  Outside, App, start, Running, Warmup, retrying, warm_done, ticked, attempt, Event, request, tick,
  cancel, later, measured, counted, served, step, run_events, run, no_metrics,
}
use mt_mcp_proxy.Main.Start.{start-Built, start-IsWellFormed}
use mt_mcp_proxy.Main.Events.{attempt-Quiet, ticked-Quiet}

-- The sessions of the store were all counted.
pub record IsCounted (s : Running) : Type 0 where
  pub bound : size s.world.store ≤ s.metrics.session_count

counted-session_count :
    (obs : Observability) (opens : Bool) (attrs : Option ToolCallAttrs) (duration : ℕ) (m : Metrics)
    → (counted obs opens (measured obs attrs duration m)).session_count
      ≡ m.session_count + one_if opens
unfolding record_session record_tool_call
counted-session_count obs true none duration m = refl
counted-session_count obs false none duration m = omega arith
counted-session_count obs true (some attrs) duration m = refl
counted-session_count obs false (some attrs) duration m = omega arith

Shrinks-IsCounted :
    (s t : Running) → Shrinks s.world t.world → t.metrics ≡ s.metrics → IsCounted s → IsCounted t
Shrinks-IsCounted s t shrinks same v = record {
  bound =
      subst (λ (m : Metrics). size t.world.store ≤ m.session_count) (sym same)
        (le_trans shrinks.fewer v.bound);
}

ticked-metrics : (env : Env) (p : Warmup) (s : Running) → (ticked env p s).metrics ≡ s.metrics
unfolding attempt
ticked-metrics env warm_done s = refl
ticked-metrics env retrying s = refl

module _ (env : Env) (a : App) (wf : IsWellFormed a.handler.registry.by_tenant) where
  step-IsCounted : (e : Event) (s : Running) → IsCounted s → IsCounted (step env a e s)
  unfolding step served
  step-IsCounted (request r) s v =
      let w = later r.wait s.world in
      let out = serve_http env a.handler r.new_id r.request w in
      let grows = serve_http-Grows env a.handler wf r.new_id r.request w in
      let count =
        counted-session_count a.observability out.opens out.recorded (out.world.now - w.now)
          s.metrics in
      record { bound = omega (arith, grows.bound, count, v.bound) }
  step-IsCounted (tick wait) s v =
      let t : Running = record s { world = later wait s.world } in
      Shrinks-IsCounted t (ticked env s.warmup t) (Quiet-Shrinks (ticked-Quiet env s.warmup t))
        (ticked-metrics env s.warmup t) (record { bound = v.bound })
  step-IsCounted cancel s v = record { bound = v.bound }

  run_events-IsCounted :
      (es : List Event) (s : Running) → IsCounted s → IsCounted (run_events env a es s)
  unfolding run_events
  run_events-IsCounted [] s v = v
  run_events-IsCounted (e ∷ es) s v =
      run_events-IsCounted es (step env a e s) (step-IsCounted e s v)

module _ {PublicKey KeySet : Type 0} (o : Outside PublicKey KeySet) where
  run-IsCounted :
      (version path : String) (now : ℕ) (a : App) (es : List Event)
      → start o version path now ≡ ok a
      → IsCounted (run o.network a es)
  unfolding run attempt
  run-IsCounted version path now a es h =
      let b = start-Built o version path now a h in
      let begun : Running = record { warmup = retrying; world = a.world; metrics = no_metrics } in
      let empty : IsCounted begun =
        subst
          (λ (x : App).
            IsCounted (record { warmup = retrying; world = x.world; metrics = no_metrics }))
          b.same (record { bound = unfold new_store in le_refl 0 }) in
      run_events-IsCounted o.network a (start-IsWellFormed o version path now a h) es
        (attempt o.network begun)
        (Shrinks-IsCounted begun (attempt o.network begun)
          (Quiet-Shrinks (attempt-Quiet o.network begun)) refl empty)

  -- However the requests and ticks follow one another, the store of a program that was started
  -- never holds more sessions than the counter of opened sessions shows.
  pub size-run :
      (version path : String) (now : ℕ) (a : App) (es : List Event)
      → start o version path now ≡ ok a
      → size (run o.network a es).world.store ≤ (run o.network a es).metrics.session_count
  size-run version path now a es h = (run-IsCounted version path now a es h).bound
