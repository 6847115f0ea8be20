-- ===== src/Main/Listeners.antt =====
-- cmd/mt-mcp-proxy/main.go: the routes of a program that serves.
use mt_mcp_proxy.Base.{
  ℕ, String, ◌≡◌, ◌≢◌, ap, subst, ◌∙◌, sym, some, [], ◌∷◌, arith, eq_iff, ok, Result-cases,
}
use mathlib.Core.List.{append-nil, append_assoc}
use mt_mcp_proxy.Base.{
  List, [], ◌∷◌, sym, ok-injective, Bool, Option, ◌++◌, Bool-cases, inl, inr, >>=-eq-ok,
}
use mt_mcp_proxy.Base.Traverse.{wrapped-eq-ok}
use mt_mcp_proxy.Config.{Config, or_default}
use mt_mcp_proxy.Config.Validate.{apply_defaults}
use mt_mcp_proxy.Config.Load.{load}
use mt_mcp_proxy.Config.Load.Laws.{load_iff}
use mt_mcp_proxy.Observability.{
  Observability, Telemetry, setup, init_instruments, Config as ObservabilityConfig,
}
use mt_mcp_proxy.Main.{Outside, App, setup_config, start}
use mt_mcp_proxy.Main.Launch.{
  Endpoint, metrics_routes, metrics, healthz, data_routes, patterns, run_error, pattern_panic,
  Launched, register, register_metrics, launch,
}
use mt_mcp_proxy.Main.Start.{start-Built}

or_default-ne : (s default : String) → default ≢ "" → or_default s default ≢ ""
or_default-ne s default ne = ground (arith, eq_iff s "")

-- What `Setup` keeps of the addresses.
setup-addresses :
    (t : Telemetry) (cfg : ObservabilityConfig) (obs : Observability)
    → setup t cfg ≡ ok obs
    → (obs.metrics_listen ≡ cfg.metrics_listen) × (obs.metrics_path ≡ cfg.metrics_path)
unfolding setup
setup-addresses t cfg obs h = ground (arith, Result-cases (init_instruments t))

module _ {PublicKey KeySet : Type 0} (o : Outside PublicKey KeySet) where
  -- The defaults leave no address empty.
  load-addresses :
      (path : String) (c : Config)
      → load o.lookup_env o.read_file o.unmarshal path ≡ ok c
      → (c.observability.metrics_listen ≢ "") × (c.observability.metrics_path ≢ "")
  load-addresses path c h =
      let l = (load_iff o.lookup_env o.read_file o.unmarshal path c).0 h in
      let from = l.parsed.observability in
      subst
        (λ (x : Config).
          (x.observability.metrics_listen ≢ "") × (x.observability.metrics_path ≢ ""))
        l.expands.others
        (unfold apply_defaults in
          (
            or_default-ne from.metrics_listen ":9090" (λ e. cc),
            or_default-ne from.metrics_path "/metrics" (λ e. cc),
          ))

  routes-addresses :
      (obs : Observability)
      → obs.metrics_listen ≢ ""
      → obs.metrics_path ≢ ""
      → metrics_routes obs ≡ some ((obs.metrics_path, metrics) ∷ ("/healthz", healthz) ∷ [])
  unfolding metrics_routes
  routes-addresses obs listen path =
      ground (arith, eq_iff obs.metrics_listen "", eq_iff obs.metrics_path "")

  -- A program that comes to its handler has the routes of the listener for metrics.
  pub start-metrics_routes :
      (version path : String) (now : ℕ) (a : App)
      → start o version path now ≡ ok a
      → metrics_routes a.observability
        ≡ some ((a.config.observability.metrics_path, metrics) ∷ ("/healthz", healthz) ∷ [])
  start-metrics_routes version path now a h =
      let b = start-Built o version path now a h in
      let (listen, routed) = load-addresses path b.cfg b.loaded in
      let (same_listen, same_path) =
        setup-addresses o.telemetry (setup_config o b.cfg version) b.observability b.observed in
      subst
        (λ (x : App).
          metrics_routes x.observability
          ≡ some ((x.config.observability.metrics_path, metrics) ∷ ("/healthz", healthz) ∷ []))
        b.same
        (routes-addresses b.observability (λ e. listen (sym same_listen ∙ e))
            (λ e. routed (sym same_path ∙ e))
          ∙ ap (λ p. some ((p, metrics) ∷ ("/healthz", healthz) ∷ [])) same_path)

  module _ (accepts : List String → String → Bool) where
    register-eq-ok :
        (mux routes out : List (String × Endpoint))
        → register accepts mux routes ≡ ok out
        → out ≡ mux ++ routes
    unfolding register
    register-eq-ok mux [] out h = sym (ok-injective h) ∙ sym (append-nil mux)
    register-eq-ok mux (r ∷ rs) out h = elim (Bool-cases (accepts (patterns mux) r.0)) [
      | inl e ↦ register-eq-ok (mux ++ r ∷ []) rs out (rw e at h) ∙ append_assoc mux (r ∷ []) rs
      | inr e ↦ cc (rw e at h)
    ]

    register_metrics-eq-ok :
        (routes : List (String × Endpoint)) (out : Option (List (String × Endpoint)))
        → register_metrics accepts (some routes) ≡ ok out
        → out ≡ some routes
    unfolding register_metrics
    register_metrics-eq-ok routes out h =
        let (mux, had, h) = >>=-eq-ok (register accepts [] routes) _ h in
        sym (ok-injective h) ∙ ap some (register-eq-ok [] routes mux had)

    -- A program that serves has exactly the four routes of the configuration's path in its mux, and
    -- always a second mux for metrics, on the metrics path and with the health check: no
    -- configuration turns that listener off, though the README says that an empty `metrics_listen`
    -- does.
    pub launch-routes :
        (version path : String) (now : ℕ) (l : Launched)
        → launch accepts o version path now ≡ ok l
        → (l.mux ≡ data_routes l.app.config.server)
          × (l.metrics_mux
              ≡ some
                  ((l.app.config.observability.metrics_path, metrics) ∷ ("/healthz", healthz) ∷ []))
    unfolding launch
    launch-routes version path now l h =
        let (a, started, h) = wrapped-eq-ok run_error (start o version path now) _ h in
        let (mux, had, h) =
          wrapped-eq-ok pattern_panic (register accepts [] (data_routes a.config.server)) _ h in
        let (metrics_mux, metered, h) =
          wrapped-eq-ok pattern_panic (register_metrics accepts (metrics_routes a.observability)) _
            h in
        let routed = start-metrics_routes version path now a started in
        let same = ok-injective h in
        (
          sym (ap (λ (x : Launched). x.mux) same)
              ∙ register-eq-ok [] (data_routes a.config.server) mux had
              ∙ ap (λ (x : Launched). data_routes x.app.config.server) same,
          sym (ap (λ (x : Launched). x.metrics_mux) same)
              ∙ register_metrics-eq-ok _ metrics_mux
                  (ap (register_metrics accepts) (sym routed) ∙ metered)
              ∙ ap
                  (λ (x : Launched). some (
                    (x.app.config.observability.metrics_path, metrics)
                    ∷ ("/healthz", healthz)
                    ∷ []))
                  same,
        )
