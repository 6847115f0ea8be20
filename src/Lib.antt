-- ===== src/Lib.antt =====
-- mt-mcp-proxy, a multi-tenant proxy for the Model Context Protocol, as a library of definitions and
-- proofs. Clients speak JSON-RPC over HTTP to one endpoint; each tools/call is authorized by the
-- groups of the caller's JWT, routed to one tenant, and forwarded to the backend of that tenant with
-- the tenant's own credential. The definitions follow the Go source function by function.
--
-- Files, and the code that they are about:
--   Config            internal/config/config.go: the records. Config.Env expands `${NAME}` (References,
--                     Splits, Replace and Expand have its laws), Config.Validate has `applyDefaults`
--                     and `Validate` (Usable, Tenants, Laws), Config.Load `Load`.
--   Registry          internal/registry/registry.go: `New`, `ResolveTenant`, `AuthorizedTenants`,
--                     `IsAuthorized`. Build, Backends, Complete, UrlErrors and Refines are about what
--                     `New` builds and when it fails, Authorize about who may select what.
--   Session           internal/session/session.go: the client sessions and the backend session ids
--                     they map. Each method is a function from the store and the time to the store;
--                     Invariant, Operations, Expiry, Keeps and Size have its laws.
--   Auth              internal/auth/auth.go: the bearer token, claims, audiences, scopes and groups.
--                     Auth.New is `New` with the two verifiers, the static keys and the discovery of
--                     the key set; Failures has its errors.
--   Http, Json        the request as net/http parses it, and JSON as encoding/json decodes it.
--   Proxy.Mcp         internal/proxy/mcp.go: JSON-RPC messages and response framings (Sse).
--   Proxy.Schema      internal/proxy/schema.go: the tenant argument, and `_meta`.
--   Proxy.ParamHeaders  internal/proxy/paramheaders.go: the Mcp-Param-* headers.
--   Proxy.World       the state that a request finds and leaves: the sessions, the catalogs, the
--                     exchanges with backends so far, and the clock; and the outside (`Env`).
--   Proxy.Client      internal/proxy/client.go: the requests to one backend. Precedence and
--                     Credential are about their headers.
--   Proxy.Catalog     internal/proxy/catalog.go: the cached tool lists; Sharing and Coherence are about
--                     which tenants share one and what the cache shows, Fresh about how long a list
--                     is kept, Warm about when every list is had.
--   Proxy.Oauth       internal/proxy/oauth.go: the metadata document and the URLs.
--   Proxy.Select, Proxy.Route, Proxy.ToolsCall, Proxy.ToolsList, Proxy.Serve
--                     internal/proxy/handler.go: `selectTenant`, `routeToBackend` and the teardown,
--                     `handleToolsCall`, `handleToolsList`, `ServeHTTP` with the other handlers.
--   Observability     internal/observability: the attributes of a call, the metrics that are recorded,
--                     `Setup` and `Shutdown`.
--   Main              cmd/mt-mcp-proxy/main.go: `run` up to the handler (Start), then until it serves,
--                     with the registrations of its two muxes (Launch, Listeners, Causes), and the
--                     running program as a sequence of events: requests, ticks of `warmCatalog` and
--                     the end of its context (Events, Retries, Caching, Sessions).
--   Proxy.Provenance  what it is for a backend session id to come from its tenant's backend.
--   Base              text, maps, sorting and results that the others share.
--   Fixtures          a small deployment, on which the Tests modules run the code.
--
-- How the parts meet: `ServeHTTP` switches over the HTTP method and the JSON-RPC method. tools/call
-- asks the verifier for groups, the registry for the caller's tenants, the catalogs for who has the
-- tool, strips the tenant argument, and routes: a stateful backend needs the client's session from
-- the store, where the backend session id is kept by tenant id, and is opened when missing.
--
-- The program starts with `Main.start`: it loads and validates the configuration, builds the verifier,
-- the registry and the telemetry from it, and from these the handler and the catalogs.
-- `Main.Launch.launch` goes on with the first attempt to warm the catalogs and the registrations, and
-- from there `Main.step` is what one event does to the running program.
--
-- What the definitions take as arguments: the network (a response or a transport error to each
-- request, which may depend on all exchanges before), the file system, the process environment, the
-- YAML decoder, `http.CanonicalHeaderKey`, the verb %q, the JSON parser, the decimal form of a float,
-- base64, `url.Parse`, the JWT parser, the parsers of keys, the key set of a URL, and the
-- constructors of OpenTelemetry. Random ids are arguments of the functions that draw them. A request
-- is handled in one go, so interleavings of requests are not there; time passes between requests and
-- during exchanges, and each operation of the store takes one time, also where it reads the clock twice
-- in a row. Go maps are lists of entries
-- with distinct keys; where Go ranges over a map in no fixed order, the list's order is taken. JSON is
-- a tree of values; of a repeated key the last counts, and a struct's field matches keys without
-- regard to case, as encoding/json does. Recursion is on lists and texts, so no fuel is needed, and a
-- run of the program is a recursion on its events. The 2026-07-28 and 2025-03-26 revisions are both
-- there, as `stateless` tells them apart.
--
-- Not modelled: the flags, signals, sockets and the shutdown of main.go; the matching of paths by
-- `http.ServeMux` (its routes are there, and which patterns it takes is an argument); the time-outs
-- of contexts; logging, spans and the propagation of traces; the scrape handler; requests that
-- interleave within a handler; and the 16 MiB limit on a line of an event stream.
pub mod Base
pub mod Config
pub mod Registry
pub mod Session
pub mod Json
pub mod Http
pub mod Auth
pub mod Observability
pub mod Proxy
pub mod Main
pub mod Fixtures
