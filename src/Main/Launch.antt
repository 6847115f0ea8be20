-- ===== src/Main/Launch.antt =====
-- cmd/mt-mcp-proxy/main.go: `run` until it serves, with the routes of its two muxes. Which patterns a
-- `http.ServeMux` takes, after those that it has, is an argument; for the others `Handle` panics.
use Prim.Native.String.{◌++◌ as append}
use mt_mcp_proxy.Base.{
  ℕ, String, Bool, Option, none, some, List, [], ◌∷◌, ◌++◌, ◌==◌, Result, ok, err, ◌>>=◌,
  wrap_error, if◌then◌else◌,
}
use mt_mcp_proxy.Config.{ServerConfig}
use mt_mcp_proxy.Observability.{Observability, metrics_listen_of, metrics_path_of}
use mt_mcp_proxy.Proxy.Oauth.{well_known}
use mt_mcp_proxy.Main.{Outside, RunError, App, start, Running, attempt, begun}

-- What the two `ServeMux` route to.
pub data Endpoint : Type 0 where
  mcp metadata healthz metrics : Endpoint

unfoldable pub data_routes : ServerConfig → List (String × Endpoint)
data_routes cfg =
    (cfg.path, mcp)
    ∷ (well_known, metadata)
    ∷ (append well_known cfg.path, metadata)
    ∷ ("/healthz", healthz)
    ∷ []

-- The routes of the metrics listener, which is started for a non-empty address.
unfoldable pub metrics_routes : Observability → Option (List (String × Endpoint))
unfolding metrics_listen_of metrics_path_of
metrics_routes obs =
    if metrics_listen_of (some obs) == ""
    then none
    else some ((metrics_path_of (some obs), metrics) ∷ ("/healthz", healthz) ∷ [])

abbrev pub patterns : List (String × Endpoint) → List String
patterns [] = []
patterns (r ∷ rs) = r.0 ∷ patterns rs

-- What ends `run` before it serves: an error that it returns, or the panic for a pattern.
pub data LaunchError : Type 0 where
  run_error : RunError → LaunchError
  pattern_panic : String → LaunchError

-- The program when it begins to serve.
pub record Launched : Type 0 where
  pub app : App
  pub running : Running
  pub mux : List (String × Endpoint)
  pub metrics_mux : Option (List (String × Endpoint))

module _ (accepts : List String → String → Bool) where
  -- `mux.Handle`, route after route; the error is the pattern that panics.
  unfoldable pub register :
      List (String × Endpoint) → List (String × Endpoint) → Result String (List (String × Endpoint))
  register mux [] = ok mux
  register mux (r ∷ rs) =
      let rest = register (mux ++ r ∷ []) rs in if accepts (patterns mux) r.0 then rest else err r.0

  -- The mux of the metrics listener, if there is one.
  unfoldable pub register_metrics :
      Option (List (String × Endpoint)) → Result String (Option (List (String × Endpoint)))
  unfolding register
  register_metrics none = ok none
  register_metrics (some routes) = do mux ← register [] routes; ok (some mux)

  -- `run` until it serves: the first attempt to warm the catalogs comes before the muxes.
  unfoldable pub launch :
      {PublicKey KeySet : Type 0}
      → Outside PublicKey KeySet
      → String
      → String
      → ℕ
      → Result LaunchError Launched
  unfolding start register register_metrics data_routes metrics_routes attempt
  launch o version path now = do
    a ← wrap_error run_error (start o version path now)
    mux ← wrap_error pattern_panic (register [] (data_routes a.config.server))
    metrics_mux ← wrap_error pattern_panic (register_metrics (metrics_routes a.observability))
    ok (record {
      app = a;
      running = attempt o.network (begun a);
      mux = mux;
      metrics_mux = metrics_mux;
    })
