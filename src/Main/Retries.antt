-- ===== src/Main/Retries.antt =====
-- cmd/mt-mcp-proxy/main.go: the retry loop of `warmCatalog`, in any run of the program.
use mt_mcp_proxy.Base.{ℕ, ◌+◌, ◌≤◌, ◌<◌, ◌≡◌, refl, ap, ◌∙◌, ◌↔◌, List, [], ◌∷◌, ◌++◌}
use mt_mcp_proxy.Proxy.World.{Env}
use mt_mcp_proxy.Proxy.Client.{ClientError}
use mt_mcp_proxy.Proxy.Catalog.{get, warm}
use mt_mcp_proxy.Proxy.Catalog.Warm.{IsHad, visited, Answers, count, warm-Answers, warm_iff}
use mt_mcp_proxy.Main.{
  App, Warmup, retrying, warm_done, warmed, Running, attempt, Event, request, tick, cancel, later,
  ticked, served, step, run_events,
}

module _ (env : Env) (a : App) where
  step-warm_done :
      (e : Event) (s : Running) → s.warmup ≡ warm_done → (step env a e s).warmup ≡ warm_done
  unfolding step served
  step-warm_done (request r) s h = h
  step-warm_done (tick wait) s h = rw h refl
  step-warm_done cancel s h = refl

  run_events-warm_done :
      (es : List Event) (s : Running)
      → s.warmup ≡ warm_done
      → (run_events env a es s).warmup ≡ warm_done
  unfolding run_events
  run_events-warm_done [] s h = h
  run_events-warm_done (e ∷ es) s h =
      run_events-warm_done es (step env a e s) (step-warm_done e s h)

  run_events-concat :
      (es later : List Event) (s : Running)
      → run_events env a (es ++ later) s ≡ run_events env a later (run_events env a es s)
  unfolding run_events
  run_events-concat [] later s = refl
  run_events-concat (e ∷ es) later s = run_events-concat es later (step env a e s)

  ticked-warm_done :
      (p : Warmup) (s : Running)
      → s.warmup ≡ p
      → (warm env s.world).0 ≡ []
      → (ticked env p s).warmup ≡ warm_done
  unfolding attempt
  ticked-warm_done warm_done s e h = e
  ticked-warm_done retrying s e h = rw h refl

  tick-warm_done :
      (wait : ℕ) (s : Running)
      → (warm env (later wait s.world)).0 ≡ []
      → (step env a (tick wait) s).warmup ≡ warm_done
  unfolding step
  tick-warm_done wait s h =
      ticked-warm_done s.warmup (record s { world = later wait s.world }) refl h

  tick_warms :
      (before after : List Event) (wait : ℕ) (s : Running)
      → (warm env (later wait (run_events env a before s).world)).0 ≡ []
      → (run_events env a (before ++ tick wait ∷ after) s).warmup ≡ warm_done
  unfolding run_events
  tick_warms before after wait s h =
      let reached = run_events env a before s in
      ap (λ (x : Running). x.warmup) (run_events-concat before (tick wait ∷ after) s)
      ∙ run_events-warm_done after (step env a (tick wait) reached) (tick-warm_done wait reached h)

  -- The retry loop of `warmCatalog` ends: let every catalog be fetched without an error from some
  -- time on. Then the loop has returned after the first tick at or after that time, whatever requests
  -- and ticks came before, and stays so whatever comes later.
  pub run_events-warm :
      (since : ℕ) (before after : List Event) (wait : ℕ) (s : Running)
      → Answers env since
      → since ≤ (run_events env a before s).world.now + wait
      → (run_events env a (before ++ tick wait ∷ after) s).warmup ≡ warm_done
  run_events-warm since before after wait s answers le =
      tick_warms before after wait s
        (warm-Answers env since (later wait (run_events env a before s).world) answers le)

  retried-warm_done :
      (s : Running) → ((attempt env s).warmup ≡ warm_done) ↔ ((warm env s.world).0 ≡ [])
  unfolding attempt
  retried-warm_done s = go (warm env s.world).0
    where
      go : (errs : List ClientError) → (warmed errs ≡ warm_done) ↔ (errs ≡ [])
      go [] = (λ h. refl, λ h. refl)
      go (e ∷ es) = (λ h. cc h, λ h. cc h)

  -- A tick ends the retry loop of `warmCatalog` exactly when the list of every catalog is had in it,
  -- each asked for after those before it. One that fails keeps the loop going.
  pub step-warm_done_iff :
      (wait : ℕ) (s : Running)
      → s.warmup ≡ retrying
      → ((step env a (tick wait) s).warmup ≡ warm_done) ↔ (
          (k : ℕ)
          → k < count (later wait s.world)
          → IsHad (get env k (visited env k (later wait s.world))).0)
  unfolding step
  step-warm_done_iff wait s h =
      let w = later wait s.world in
      let retried = retried-warm_done (record s { world = w }) in
      let all = warm_iff env w in
      rw h (λ done. all.0 (retried.0 done), λ had. retried.1 (all.1 had))
