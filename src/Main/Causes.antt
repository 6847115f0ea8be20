-- ===== src/Main/Causes.antt =====
-- cmd/mt-mcp-proxy/main.go: what may end `run` before it serves.
use mt_mcp_proxy.Base.{
  ℕ, String, ◌≡◌, sym, subst, ap, ◌∙◌, ◌⊎◌, inl, inr, Bool, false, some, List, [], ◌∷◌, ◌++◌, ok,
  err, Bool-cases, Result-cases,
}
use mathlib.Core.List.{append_assoc}
use mt_mcp_proxy.Config.{Config}
use mt_mcp_proxy.Config.Load.{load}
use mt_mcp_proxy.Main.{Outside, App, start}
use mt_mcp_proxy.Main.Launch.{
  Endpoint, metrics_routes, metrics, healthz, data_routes, patterns, LaunchError, run_error,
  pattern_panic, register, register_metrics, launch,
}
use mt_mcp_proxy.Main.Start.{IsCause, start-IsCause, start-Built, err-injective, wrapped-eq-err}
use mt_mcp_proxy.Main.Listeners.{start-metrics_routes}

module _ (accepts : List String → String → Bool) where
  -- A mux with the patterns of the routes before this one does not take its pattern.
  pub record IsRefused (routes : List (String × Endpoint)) (p : String) : Type 0 where
    pub before : List (String × Endpoint)
    pub endpoint : Endpoint
    pub after : List (String × Endpoint)
    pub split : routes ≡ before ++ (p, endpoint) ∷ after
    pub refused : accepts (patterns before) p ≡ false

  register-eq-err :
      (mux routes : List (String × Endpoint)) (p : String)
      → register accepts mux routes ≡ err p
      → IsRefused (mux ++ routes) p
  unfolding register
  register-eq-err mux [] p h = cc h
  register-eq-err mux (r ∷ rs) p h = elim (Bool-cases (accepts (patterns mux) r.0)) [
    | inl e ↦
        subst (λ l. IsRefused l p) (append_assoc mux (r ∷ []) rs)
          (register-eq-err (mux ++ r ∷ []) rs p (rw e at h))
    | inr e ↦
        let same : r.0 ≡ p = err-injective (rw e at h) in
        record {
          before = mux;
          endpoint = r.1;
          after = rs;
          split = ap (λ q. mux ++ (q, r.1) ∷ rs) same;
          refused = ap (accepts (patterns mux)) (sym same) ∙ e;
        }
  ]

  register_metrics-eq-err :
      (routes : List (String × Endpoint)) (p : String)
      → register_metrics accepts (some routes) ≡ err p
      → IsRefused routes p
  unfolding register_metrics
  register_metrics-eq-err routes p h = elim (Result-cases (register accepts [] routes)) [
    | inl (q, e) ↦ register-eq-err [] routes p (e ∙ ap err (err-injective (rw e at h)))
    | inr (mux, e) ↦ cc (rw e at h)
  ]

  module _ {PublicKey KeySet : Type 0} (o : Outside PublicKey KeySet) where
    -- A loaded configuration has a path whose pattern a mux refuses.
    pub record IsClash (path p : String) : Type 0 where
      pub cfg : Config
      pub loaded : load o.lookup_env o.read_file o.unmarshal path ≡ ok cfg
      pub refused :
          IsRefused (data_routes cfg.server) p
          ⊎ IsRefused ((cfg.observability.metrics_path, metrics) ∷ ("/healthz", healthz) ∷ []) p

    -- What ends `run` before it serves.
    abbrev pub IsEnd : String → LaunchError → Type 0
    IsEnd path (run_error e) = IsCause o path e
    IsEnd path (pattern_panic p) = IsClash path p

    clash :
        (version path p : String) (now : ℕ) (a : App)
        → start o version path now ≡ ok a
        → IsRefused (data_routes a.config.server) p
          ⊎ IsRefused
              ((a.config.observability.metrics_path, metrics) ∷ ("/healthz", healthz) ∷ [])
              p
        → IsClash path p
    clash version path p now a h refused =
        let b = start-Built o version path now a h in
        record {
          cfg = b.cfg;
          loaded = b.loaded;
          refused =
              subst
                (λ (x : App).
                  IsRefused (data_routes x.config.server) p
                  ⊎ IsRefused
                      ((x.config.observability.metrics_path, metrics) ∷ ("/healthz", healthz) ∷ [])
                      p)
                (sym b.same) refused;
        }

    -- If `run` ends before it serves, then `Load` refused the configuration, with that error; or
    -- the cause is outside it: in the verifier, a file, a key, a URL, the network or a document; in
    -- the registry, a URL that does not parse or is not absolute; or the set-up of the telemetry; or
    -- it panics, for a path of the loaded configuration whose pattern one of the two muxes refuses
    -- after the patterns before it. No loaded configuration has an unsupported mode, no issuer where
    -- one is needed, a duplicate tenant or no tenant.
    pub launch-IsEnd :
        (version path : String) (now : ℕ) (e : LaunchError)
        → launch accepts o version path now ≡ err e
        → IsEnd path e
    unfolding launch
    launch-IsEnd version path now e h =
        elim (wrapped-eq-err run_error (start o version path now) _ h) [
          | inl (x, failed, same) ↦
              subst (IsEnd path) same (start-IsCause o version path now x failed)
          | inr (a, started, h) ↦
              elim (wrapped-eq-err pattern_panic (register accepts [] (data_routes a.config.server))
                _ h) [
                  | inl (p, failed, same) ↦ subst (IsEnd path) same (
                      clash version path p now a started
                        (inl (register-eq-err [] (data_routes a.config.server) p failed)))
                  | inr (mux, _, h) ↦
                      elim (wrapped-eq-err pattern_panic
                        (register_metrics accepts (metrics_routes a.observability)) _ h) [
                          | inl (p, failed, same) ↦
                              let routed = start-metrics_routes o version path now a started in
                              subst (IsEnd path) same (
                                clash version path p now a started (
                                  inr (
                                    register_metrics-eq-err _ p
                                      (ap (register_metrics accepts) (sym routed) ∙ failed))))
                          | inr (m, _, h) ↦ cc h
                        ]
                ]
        ]
