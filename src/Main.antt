-- ===== src/Main.antt =====
-- cmd/mt-mcp-proxy/main.go: `run` builds the parts in order and serves; `warmCatalog` fills the tool
-- catalogs at the start and, where that fails, at each tick until it succeeds. Times are in seconds.
-- Flags, signals, listeners and logging are left out.
pub mod Launch
pub mod Start
pub mod Events
pub mod Retries
pub mod Caching
pub mod Listeners
pub mod Causes
pub mod Sessions
mod Tests
use Prim.Native.String.{◌++◌ as append}
use mt_mcp_proxy.Base.{
  ℕ, ◌+◌, ◌-◌, String, Bool, true, false, Option, none, some, List, [], ◌∷◌, ◌++◌, ◌==◌, Result, ok,
  err, ◌>>=◌, wrap_error, any, if◌then◌else◌,
}
use mt_mcp_proxy.Base.Dict.{Dict}
use mt_mcp_proxy.Config.{Config, ConfigError, ServerConfig}
use mt_mcp_proxy.Config.Env.{LookupEnv}
use mt_mcp_proxy.Config.Load.{load}
use mt_mcp_proxy.Auth.{Claims, ParserOption}
use mt_mcp_proxy.Auth.New.{NewError, Key, Verifier}
use mt_mcp_proxy.Auth.New
use mt_mcp_proxy.Registry.{Url, Registry}
use mt_mcp_proxy.Registry
use mt_mcp_proxy.Session.{new_store, pos}
use mt_mcp_proxy.Observability.{
  Observability, Telemetry, SetupError, setup, Metrics, record_tool_call, record_session,
  metrics_listen_of, metrics_path_of, ToolCallAttrs, Config as ObservabilityConfig,
}
use mt_mcp_proxy.Proxy.World.{Env, World}
use mt_mcp_proxy.Proxy.Client.{ClientError}
use mt_mcp_proxy.Proxy.Catalog.{new_catalogs, warm}
use mt_mcp_proxy.Proxy.Oauth.{well_known}
use mt_mcp_proxy.Proxy.ToolsCall.{Handler}
use mt_mcp_proxy.Proxy.Serve.{Arrival, Served, serve_http}

-- The outside of the program, part by part.
pub record Outside (PublicKey KeySet : Type 0) : Type 0 where
  pub lookup_env : LookupEnv
  pub read_file : String → Option String
  pub unmarshal : String → Option Config
  pub keys : New.Outside PublicKey KeySet
  pub parse_unverified : String → Option Claims
  pub parse_with_claims : List ParserOption → Key PublicKey KeySet → String → Option Claims
  pub parse_url : String → Option Url
  pub telemetry : Telemetry
  pub network : Env

pub data RunError : Type 0 where
  config_error : ConfigError → RunError
  auth_error : NewError → RunError
  registry_error : Registry.Error → RunError
  setup_error : SetupError → RunError

pub record App : Type 0 where
  pub config : Config
  pub handler : Handler
  pub observability : Observability
  pub world : World

abbrev pub session_ttl : ℕ
session_ttl = 1_800

abbrev pub catalog_ttl : ℕ
catalog_ttl = 300

module _ {PublicKey KeySet : Type 0} (o : Outside PublicKey KeySet) where
  abbrev pub app : Config → Verifier PublicKey KeySet → Registry → Observability → ℕ → App
  app cfg verifier reg obs now = record {
    config = cfg;
    handler = record {
      verifier = New.groups o.parse_unverified o.parse_with_claims verifier;
      registry = reg;
      server_cfg = cfg.server;
      auth_cfg = cfg.auth;
    };
    observability = obs;
    world = record {
      store = new_store (pos session_ttl);
      catalogs = new_catalogs o.network reg catalog_ttl;
      exchanged = [];
      now = now;
    };
  }

  abbrev pub setup_config : Config → String → ObservabilityConfig
  setup_config cfg version = record {
    metrics_listen = cfg.observability.metrics_listen;
    metrics_path = cfg.observability.metrics_path;
    service_name = "mt-mcp-proxy";
    service_version = version;
  }

  -- `run`, up to the handler: at the time `now`, for the config file at `path`.
  unfoldable pub start : String → String → ℕ → Result RunError App
  start version path now = do
    cfg ← wrap_error config_error (load o.lookup_env o.read_file o.unmarshal path)
    verifier ← wrap_error auth_error (New.new o.keys cfg.auth)
    reg ← wrap_error registry_error (Registry.new o.parse_url cfg.backends)
    obs ← wrap_error setup_error (setup o.telemetry (setup_config cfg version))
    ok (app cfg verifier reg obs now)

-- `warmCatalog`: retrying until it is warm or the context is done.
pub data Warmup : Type 0 where
  retrying warm_done : Warmup

-- The state of the running program.
pub record Running : Type 0 where
  pub warmup : Warmup
  pub world : World
  pub metrics : Metrics

abbrev pub warmed : List ClientError → Warmup
warmed [] = warm_done
warmed (e ∷ es) = retrying

-- One call of `WarmCatalog`.
unfoldable pub attempt : Env → Running → Running
attempt env s = let (errs, w) = warm env s.world in record s { warmup = warmed errs; world = w }

-- The metrics of a request that was served: those of a tools/call, with the time that it took.
abbrev pub measured : Observability → Option ToolCallAttrs → ℕ → Metrics → Metrics
measured obs none duration m = m
measured obs (some attrs) duration m = record_tool_call (some obs) attrs duration m

abbrev pub counted : Observability → Bool → Metrics → Metrics
counted obs opens m = if opens then record_session (some obs) m else m

-- What happens while the program runs: a request, a tick of the retry loop, or the end of the
-- context. Each comes some time after the one before.
pub data Event : Type 0 where
  request : Arrival → Event
  tick : ℕ → Event
  cancel : Event

abbrev pub later : ℕ → World → World
later wait w = record w { now = w.now + wait }

-- A tick does nothing once the loop has returned.
abbrev pub ticked : Env → Warmup → Running → Running
ticked env warm_done s = s
ticked env retrying s = attempt env s

unfoldable pub served : Env → App → Arrival → Running → Running
served env a arrival s =
    let w = later arrival.wait s.world in
    let out = serve_http env a.handler arrival.new_id arrival.request w in
    record s {
      world = out.world;
      metrics =
          counted a.observability out.opens
            (measured a.observability out.recorded (out.world.now - w.now) s.metrics);
    }

-- The goroutines take turns: here they do so event by event.
unfoldable pub step : Env → App → Event → Running → Running
unfolding served attempt
step env a (request arrival) s = served env a arrival s
step env a (tick wait) s = ticked env s.warmup (record s { world = later wait s.world })
step env a cancel s = record s { warmup = warm_done }

unfoldable pub run_events : Env → App → List Event → Running → Running
unfolding step
run_events env a [] s = s
run_events env a (e ∷ es) s = run_events env a es (step env a e s)

abbrev pub no_metrics : Metrics
no_metrics = record { op_duration = []; op_count = []; session_count = 0 }

-- The program when `warmCatalog` is called.
abbrev pub begun : App → Running
begun a = record { warmup = retrying; world = a.world; metrics = no_metrics }

-- The start, with its first attempt to warm the catalogs, and the events after it.
unfoldable pub run : Env → App → List Event → Running
unfolding run_events attempt
run env a es = run_events env a es (attempt env (begun a))
