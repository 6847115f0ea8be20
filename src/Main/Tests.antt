-- ===== src/Main/Tests.antt =====
-- The program on the configuration of the fixtures.
use mt_mcp_proxy.Base.{
  ◌≡◌, refl, true, false, none, some, List, [], ◌∷◌, ◌++◌, ◌==◌, ok, err, if◌then◌else◌,
}
use mt_mcp_proxy.Base.Dict.{has, insert, lookup, values}
use mt_mcp_proxy.Base.Sort.{sort_by}
use mt_mcp_proxy.Base.Order.{less}
use mt_mcp_proxy.Base.Text.{contains_text, has_prefix}
use mt_mcp_proxy.Config.{BackendConfig}
use mt_mcp_proxy.Config.Env.{
  expand_env, expand_backends, expand_backend, expand_headers, expand_tenants, expand_tenant,
  expand_refs,
}
use mt_mcp_proxy.Config.Validate.{
  apply_defaults, default_backends, default_backend, validate, validate_auth, validate_backends,
  validate_backend, validate_tenants,
}
use mt_mcp_proxy.Config.Load.{load}
use mt_mcp_proxy.Auth.{parser_opts, accepted_audiences}
use mt_mcp_proxy.Auth.New.{
  failed, Verifier, hmac, hmac_algs, jwt_verifier, new_static, load_static_key,
}
use mt_mcp_proxy.Auth.New
use mt_mcp_proxy.Registry.{
  Registry, Backend, invalid_url, add_backends, backend_url, add_tenants, new_backend, new_tenant,
}
use mt_mcp_proxy.Registry
use mt_mcp_proxy.Observability.{Observability, noop, setup, init_instruments, mcp_histogram_buckets}
use mt_mcp_proxy.Proxy.Provenance.{IsProven}
use mt_mcp_proxy.Proxy.Catalog.{get, get_entry, is_fresh, new_catalog, fetch}
use mt_mcp_proxy.Registry.{effective_credential, tenants, stateless}
use mt_mcp_proxy.Http.{header_get}
use mt_mcp_proxy.Proxy.Mcp.{decode_body}
use mt_mcp_proxy.Proxy.Schema.{struct_field}
use mt_mcp_proxy.Proxy.World.{do_request}
use mt_mcp_proxy.Proxy.Client.{initialize, list_tools, post, post_response, notify_initialized}
use mt_mcp_proxy.Main.{
  Outside, App, app, registry_error, start, retrying, warm_done, Running, Event, request, tick,
  later, run_events, run, no_metrics,
}
use mt_mcp_proxy.Base.{String, Bool, not, contains}
use mt_mcp_proxy.Config.{Config}
use mt_mcp_proxy.Main.{begun, attempt}
use mt_mcp_proxy.Main.Launch.{
  Launched, launch, register, register_metrics, data_routes, metrics_routes, metrics, healthz,
  pattern_panic,
}
use mt_mcp_proxy.Main.Causes.{IsEnd, launch-IsEnd}
use mt_mcp_proxy.Main.Events.{run-IsProven}
use mt_mcp_proxy.Base.{ℕ, ◌↔◌, inl, inr, Bool-cases}
use mt_mcp_proxy.Proxy.World.{World}
use mt_mcp_proxy.Proxy.Catalog.Warm.{IsHad, visited, count}
use mt_mcp_proxy.Main.Retries.{run_events-warm, step-warm_done_iff}
use mt_mcp_proxy.Fixtures.{
  parse_any, net, server, posted, opening, to_acme, usable_config, gitlab_config, acme_config,
  zeta_config,
}
use mt_mcp_proxy.Base.{◌-◌, ◌<◌, arith}
use mt_mcp_proxy.Registry.Build.{IsWellFormed}
use mt_mcp_proxy.Proxy.Mcp.{RawTool}
use mt_mcp_proxy.Proxy.World.{CatalogEntry}
use mt_mcp_proxy.Proxy.Catalog.{tools_for, collect}
use mt_mcp_proxy.Json.{str}
use mt_mcp_proxy.Auth.{bearer_token}
use mt_mcp_proxy.Proxy.Serve.{serve_http, serve_post, serve_rpc}
use mt_mcp_proxy.Proxy.ToolsList.{handle_tools_list}
use mt_mcp_proxy.Main.{step, served, warm_done}
use mt_mcp_proxy.Base.{◌≤◌}
use mt_mcp_proxy.Session.Size.{size}
use mt_mcp_proxy.Main.Sessions.{size-run}
use mt_mcp_proxy.Main.Caching.{run_events-serves}
use mt_mcp_proxy.Main.Listeners.{launch-routes}
use mt_mcp_proxy.Fixtures.{acme}

abbrev around : Outside (Unit {0}) (Unit {0})
around = record {
  lookup_env = λ k. none;
  read_file = λ path. if path == "proxy.yaml" then some "gitlab" else none;
  unmarshal = λ raw. some usable_config;
  keys = record {
    read_file = λ path. none;
    pem_decode = λ s. none;
    parse_public_key = λ s. none;
    parse_url = λ s. none;
    fetch = λ url. failed;
    decode_json = λ s. none;
    key_set = λ url. none;
  };
  parse_unverified = λ token. none;
  parse_with_claims = λ opts key token. none;
  parse_url = parse_any;
  telemetry = record {
    resource = λ name version. true;
    prometheus = true;
    instrument = λ name. true;
    otlp_endpoint = "";
    otlp_exporter = true;
  };
  network = net;
}

abbrev verifier : Verifier (Unit {0}) (Unit {0})
verifier = jwt_verifier around.keys usable_config.auth (hmac "hush") hmac_algs

abbrev observability : Observability
observability = record {
  service_name = "mt-mcp-proxy";
  tracer = noop;
  has_tracer_provider = false;
  buckets = mcp_histogram_buckets;
  metrics_listen = ":9090";
  metrics_path = "/metrics";
}

abbrev entry : BackendConfig
entry = record gitlab_config { credential = "s3cret"; protocol_version = "2025-03-26" }

abbrev backend : Backend
backend =
    new_backend entry
      (record { scheme = "https"; host = "example.org"; text = "https://example.org/gitlab" })

abbrev registry : Registry
registry = record {
  by_tenant =
      ("acme", new_tenant backend acme_config) ∷ ("zeta", new_tenant backend zeta_config) ∷ [];
  backends = backend ∷ [];
}

abbrev started : App
started = app around usable_config verifier registry observability 100

start_runs : start around "dev" "proxy.yaml" 100 ≡ ok started
unfolding start load apply_defaults default_backends default_backend expand_env expand_backends
    expand_backend expand_headers expand_tenants expand_tenant expand_refs contains_text has_prefix
    validate validate_auth validate_backends validate_backend validate_tenants has insert lookup
    New.new new_static load_static_key Registry.new add_backends backend_url add_tenants setup
    init_instruments parser_opts accepted_audiences
start_runs = refl

abbrev blind : Outside (Unit {0}) (Unit {0})
blind = record around { parse_url = λ s. none }

url_refused : start blind "dev" "proxy.yaml" 100 ≡ err (registry_error (invalid_url "gitlab"))
unfolding start load apply_defaults default_backends default_backend expand_env expand_backends
    expand_backend expand_headers expand_tenants expand_tenant expand_refs contains_text has_prefix
    validate validate_auth validate_backends validate_backend validate_tenants has insert lookup
    New.new new_static load_static_key Registry.new add_backends backend_url add_tenants
url_refused = refl

-- A mux takes each pattern once.
abbrev once : List String → String → Bool
once patterns p = not (contains patterns p)

abbrev serving : Launched
serving = record {
  app = started;
  running = attempt net (begun started);
  mux = data_routes server;
  metrics_mux = some (("/metrics", metrics) ∷ ("/healthz", healthz) ∷ []);
}

launch_runs : launch once around "dev" "proxy.yaml" 100 ≡ ok serving
unfolding launch register register_metrics data_routes metrics_routes
launch_runs = rw start_runs refl

launch-routes_example :
    (serving.mux ≡ data_routes serving.app.config.server)
    × (serving.metrics_mux
        ≡ some
            ((serving.app.config.observability.metrics_path, metrics) ∷ ("/healthz", healthz) ∷ []))
launch-routes_example = launch-routes around once "dev" "proxy.yaml" 100 serving launch_runs

-- With `/healthz` as the path of the server.
abbrev clashing_config : Config
clashing_config = record usable_config { server = record server { path = "/healthz" } }

abbrev clashing : Outside (Unit {0}) (Unit {0})
clashing = record around { unmarshal = λ raw. some clashing_config }

abbrev clashing_app : App
clashing_app = app clashing clashing_config verifier registry observability 100

clashing_starts : start clashing "dev" "proxy.yaml" 100 ≡ ok clashing_app
unfolding start load apply_defaults default_backends default_backend expand_env expand_backends
    expand_backend expand_headers expand_tenants expand_tenant expand_refs contains_text has_prefix
    validate validate_auth validate_backends validate_backend validate_tenants has insert lookup
    New.new new_static load_static_key Registry.new add_backends backend_url add_tenants setup
    init_instruments parser_opts accepted_audiences
clashing_starts = refl

path_taken : launch once clashing "dev" "proxy.yaml" 100 ≡ err (pattern_panic "/healthz")
unfolding launch register data_routes
path_taken = rw clashing_starts refl

launch-IsEnd_example : IsEnd once clashing "proxy.yaml" (pattern_panic "/healthz")
launch-IsEnd_example =
    launch-IsEnd once clashing "dev" "proxy.yaml" 100 (pattern_panic "/healthz") path_taken

-- A client opens a session and calls a tool; between the two comes a tick of the warm-up.
abbrev events : List Event
events =
    request (record { wait = 1; new_id = "s-1"; request = posted "" opening })
    ∷ tick 10
    ∷ request (record { wait = 1; new_id = "s-2"; request = posted "s-1" to_acme })
    ∷ []

run-IsProven_example :
    IsProven around.network started.handler.registry (run around.network started events).world
run-IsProven_example = run-IsProven around "dev" "proxy.yaml" 100 started events start_runs

-- The catalogs have not been had yet.
abbrev cold : Running
cold = record { warmup = retrying; world = started.world; metrics = no_metrics }

fetch_answers : (c : CatalogEntry) (w : World) → IsHad (fetch net c w).0
unfolding fetch stateless initialize list_tools post post_response decode_body header_get
    struct_field notify_initialized do_request lookup
fetch_answers c w = elim (Bool-cases (c.backend.protocol_version == "2026-07-28")) [
  | inl e ↦ rw e (none, refl)
  | inr e ↦ rw e (none, refl)
]

run_events-warm_example : (run_events net started ([] ++ tick 10 ∷ events) cold).warmup ≡ warm_done
run_events-warm_example =
    run_events-warm net started 0 [] events 10 cold (λ c w le. fetch_answers c w) (omega arith)

step-warm_done_iff_example : ((step net started (tick 10) cold).warmup ≡ warm_done) ↔ (
    (k : ℕ)
    → k < count (later 10 cold.world)
    → IsHad (get net k (visited net k (later 10 cold.world))).0)
step-warm_done_iff_example = step-warm_done_iff net started 10 cold refl

started-IsWellFormed : IsWellFormed started.handler.registry.by_tenant
unfolding lookup
started-IsWellFormed = record { nodup = (refl, (refl, tt)); own = (refl, (refl, tt)) }

-- The catalog of `acme` was fetched ten seconds before.
abbrev search_tools : List RawTool
search_tools = (("name", str "search") ∷ []) ∷ []

abbrev fetched : CatalogEntry
fetched = record (new_catalog acme 300) { tools = some search_tools; fetched_at = 90 }

abbrev stocked : Running
stocked = record cold {
  warmup = warm_done;
  world = record started.world {
    catalogs = record { by_tenant = ("acme", 0) ∷ []; unique = fetched ∷ [] };
  };
}

abbrev listing : List Event
listing =
    tick 10
    ∷ request (record {
      wait = 1;
      new_id = "s-1";
      request = posted "" (record { method = "tools/list"; params = none; id = some (str "1") });
    })
    ∷ []

listing_clock : (run_events net started listing stocked).world.now ≡ 111
unfolding run_events step served serve_http serve_post serve_rpc handle_tools_list tools_for collect
    get get_entry is_fresh lookup tenants values sort_by less new_catalog New.groups bearer_token
listing_clock = refl

listing_young :
    (run_events net started listing stocked).world.now - fetched.fetched_at < fetched.ttl
unfolding new_catalog
listing_young = rw listing_clock (omega arith)

run_events-serves_example :
    get net 0 (run_events net started listing stocked).world
    ≡ (ok (some search_tools), (run_events net started listing stocked).world)
run_events-serves_example =
    run_events-serves net started started-IsWellFormed 0 fetched listing stocked search_tools refl
      refl listing_young

size-run_example :
    size (run around.network started events).world.store
    ≤ (run around.network started events).metrics.session_count
size-run_example = size-run around "dev" "proxy.yaml" 100 started events start_runs
