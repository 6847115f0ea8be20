-- ===== src/Observability/Tests.antt =====
-- A call that was routed, and one that was not.
use mt_mcp_proxy.Base.{◌≡◌, refl, true, some, [], ◌∷◌, ok}
use mt_mcp_proxy.Observability.{
  ToolCallAttrs, Observability, Telemetry, traced, attributes, setup, init_instruments,
  mcp_histogram_buckets, shutdown, tracer_provider, meter_provider,
}
use mt_mcp_proxy.Observability.Laws.{attrs_of, attrs_of-attributes}

abbrev routed_call : ToolCallAttrs
routed_call = record {
  method = "tools/call";
  tool = "search";
  tenant_id = "acme";
  backend = "gitlab";
  error_type = "";
}

routed_attributes :
    attributes routed_call
    ≡ ("mcp.method.name", "tools/call")
      ∷ ("mcp.tool.name", "search")
      ∷ ("mcp.tenant.id", "acme")
      ∷ ("mcp.backend.name", "gitlab")
      ∷ []
unfolding attributes
routed_attributes = refl

attrs_of-attributes_example : attrs_of (attributes routed_call) ≡ routed_call
attrs_of-attributes_example = attrs_of-attributes routed_call

abbrev exporting : Telemetry
exporting = record {
  resource = λ name version. true;
  prometheus = true;
  instrument = λ name. true;
  otlp_endpoint = "http://collector:4317";
  otlp_exporter = true;
}

abbrev tracing : Observability
tracing = record {
  service_name = "mt-mcp-proxy";
  tracer = traced;
  has_tracer_provider = true;
  buckets = mcp_histogram_buckets;
  metrics_listen = ":9090";
  metrics_path = "/metrics";
}

setup_traces :
    setup exporting (record {
      metrics_listen = ":9090";
      metrics_path = "/metrics";
      service_name = "";
      service_version = "dev";
    })
    ≡ ok tracing
unfolding setup init_instruments
setup_traces = refl

-- Both fail: the error is the tracer provider's.
shutdown_both :
    shutdown (λ p. some p) (some tracing)
    ≡ (tracer_provider ∷ meter_provider ∷ [], some tracer_provider)
unfolding shutdown
shutdown_both = refl
