-- ===== src/Observability.antt =====
-- internal/observability: what is measured of a tool call, and the set-up and end of the providers.
-- A `*Observability` is an option, `none` for nil. OpenTelemetry and Prometheus are parameters:
-- whether their constructors succeed, and the instruments as lists of what was recorded on them.
pub mod Laws
mod Tests
use mt_mcp_proxy.Base.{
  ℕ, ◌+◌, String, Bool, not, ◌&&◌, Option, none, some, List, [], ◌∷◌, ◌++◌, ◌==◌, Result, ok, err,
  ◌>>=◌, ◌>>◌, fail_if, if◌then◌else◌,
}
use mt_mcp_proxy.Base.Dict.{Dict}

pub record Config : Type 0 where
  pub metrics_listen : String
  pub metrics_path : String
  pub service_name : String
  pub service_version : String

pub record ToolCallAttrs : Type 0 where
  pub method : String
  pub tool : String
  pub tenant_id : String
  pub backend : String
  pub error_type : String

-- semconv.go
abbrev pub attr_method_name : String
attr_method_name = "mcp.method.name"

abbrev pub attr_tool_name : String
attr_tool_name = "mcp.tool.name"

abbrev pub attr_tenant_id : String
attr_tenant_id = "mcp.tenant.id"

abbrev pub attr_backend : String
attr_backend = "mcp.backend.name"

abbrev pub attr_error_type : String
attr_error_type = "error.type"

-- `mcpHistogramBuckets`, in milliseconds.
abbrev pub mcp_histogram_buckets : List ℕ
mcp_histogram_buckets =
    10 ∷ 20 ∷ 50 ∷ 100 ∷ 200 ∷ 500 ∷ 1_000 ∷ 2_000 ∷ 5_000 ∷ 10_000 ∷ 30_000 ∷ 60_000 ∷ 120_000
    ∷ 300_000 ∷ []

-- `if v != "" { attrs = append(attrs, attribute.String(k, v)) }`
abbrev pub attr_if : String → String → Dict String
attr_if k v = if not (v == "") then (k, v) ∷ [] else []

-- The attributes of `RecordToolCall`.
unfoldable pub attributes : ToolCallAttrs → Dict String
attributes a =
    (attr_method_name, a.method)
    ∷ (attr_if attr_tool_name a.tool
        ++ (attr_if attr_tenant_id a.tenant_id
            ++ (attr_if attr_backend a.backend ++ attr_if attr_error_type a.error_type)))

-- What was recorded on the instruments.
pub record Metrics : Type 0 where
  pub op_duration : List (ℕ × Dict String)
  pub op_count : List (Dict String)
  pub session_count : ℕ

-- `noop` where no provider is installed.
pub data Tracer : Type 0 where
  noop traced : Tracer

-- The meter provider is always set after `Setup`; the tracer provider is there for an endpoint.
pub record Observability : Type 0 where
  pub service_name : String
  pub tracer : Tracer
  pub has_tracer_provider : Bool
  pub buckets : List ℕ
  pub metrics_listen : String
  pub metrics_path : String

unfoldable pub record_tool_call : Option Observability → ToolCallAttrs → ℕ → Metrics → Metrics
record_tool_call none a duration m = m
record_tool_call (some o) a duration m = record m {
  op_duration = m.op_duration ++ (duration, attributes a) ∷ [];
  op_count = m.op_count ++ attributes a ∷ [];
}

unfoldable pub record_session : Option Observability → Metrics → Metrics
record_session none m = m
record_session (some o) m = record m { session_count = m.session_count + 1 }

unfoldable pub tracer_of : Option Observability → Tracer
tracer_of none = noop
tracer_of (some o) = o.tracer

unfoldable pub metrics_listen_of : Option Observability → String
metrics_listen_of none = ""
metrics_listen_of (some o) = o.metrics_listen

unfoldable pub metrics_path_of : Option Observability → String
metrics_path_of none = "/metrics"
metrics_path_of (some o) = if o.metrics_path == "" then "/metrics" else o.metrics_path

-- The outside of `Setup`: whether each constructor succeeds, and `OTEL_EXPORTER_OTLP_ENDPOINT`.
pub record Telemetry : Type 0 where
  pub resource : String → String → Bool
  pub prometheus : Bool
  pub instrument : String → Bool
  pub otlp_endpoint : String
  pub otlp_exporter : Bool

pub data SetupError : Type 0 where
  build_resource prometheus_exporter otlp_trace_exporter : SetupError
  instrument_failed : String → SetupError

unfoldable pub init_instruments : Telemetry → Result SetupError (Unit {0})
init_instruments t = do
  instrument "mcp.server.operation.duration"
  instrument "mcp.server.operation.count"
  instrument "mcp.server.session.count"
  where
    instrument : String → Result SetupError (Unit {0})
    instrument name = fail_if (not (t.instrument name)) (instrument_failed name)

-- `Setup`
unfoldable pub setup : Telemetry → Config → Result SetupError Observability
unfolding init_instruments
setup t cfg = do
  fail_if (not (t.resource name cfg.service_version)) build_resource
  fail_if (not t.prometheus) prometheus_exporter
  init_instruments t
  fail_if (traces && not t.otlp_exporter) otlp_trace_exporter
  ok (record {
    service_name = name;
    tracer = if traces then traced else noop;
    has_tracer_provider = traces;
    buckets = mcp_histogram_buckets;
    metrics_listen = cfg.metrics_listen;
    metrics_path = cfg.metrics_path;
  })
  where
    name : String
    name = if cfg.service_name == "" then "mt-mcp-proxy" else cfg.service_name

    traces : Bool
    traces = not (t.otlp_endpoint == "")

pub data Provider : Type 0 where
  tracer_provider meter_provider : Provider

-- `Shutdown`, where `fails` gives the error of a provider's `Shutdown`: the providers that were
-- told, in order, and the error.
unfoldable pub shutdown :
    {E : Type 0} → (Provider → Option E) → Option Observability → List Provider × Option E
shutdown fails none = ([], none)
shutdown fails (some o) =
    let first_err = if o.has_tracer_provider then fails tracer_provider else none in
    let called = if o.has_tracer_provider then tracer_provider ∷ [] else [] in
    (called ++ meter_provider ∷ [], first_error first_err (fails meter_provider))
  where
    first_error : {E : Type 0} → Option E → Option E → Option E
    first_error none e = e
    first_error (some e) later = some e
