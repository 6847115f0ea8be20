-- ===== src/Proxy/Tests.antt =====
-- Requests to the deployment of the fixtures.
use mt_mcp_proxy.Base.{
  ℕ, true, inl, inr, get_elem?, ◌≡◌, ◌≢◌, ◌⊎◌, ◌↔◌, refl, none, some, List, [], ◌∷◌, ok, In,
}
use mt_mcp_proxy.Base.Dict.{values, lookup, insert, has}
use mt_mcp_proxy.Json.{str}
use mt_mcp_proxy.Registry.{Tenant, tenants, resolve_tenant, authorized_tenants}
use mt_mcp_proxy.Registry.Build.{IsWellFormed}
use mt_mcp_proxy.Proxy.Schema.{extract_tenant_arg}
use mt_mcp_proxy.Proxy.ParamHeaders.Laws.{or_else}
use mt_mcp_proxy.Proxy.Client.Headers.{PostTo, Sends}
use mt_mcp_proxy.Proxy.Select.{select_tenant}
use mt_mcp_proxy.Proxy.Select.Laws.{MayHave, select_tenant_iff}
use mt_mcp_proxy.Proxy.Route.{Call, route_to_backend}
use mt_mcp_proxy.Proxy.Route.Isolation.{Carries, route_to_backend-Carries}
use mt_mcp_proxy.Proxy.Client.{apply_auth}
use mt_mcp_proxy.Proxy.Client.Precedence.{latest, credential_header, apply_auth_lem}
use mt_mcp_proxy.Proxy.Catalog.{new_catalog, new_catalogs, view_key}
use mt_mcp_proxy.Proxy.Catalog.Sharing.{new_catalogs_lem}
use mt_mcp_proxy.Proxy.Catalog.{TenantTools}
use mt_mcp_proxy.Proxy.ToolsList.{merge_views, no_tools, ids_or_nil}
use mt_mcp_proxy.Proxy.ToolsList.Union.{first_def, holders, merge_views_lem}
use mt_mcp_proxy.Proxy.Serve.{serve_http}
use mt_mcp_proxy.Proxy.Client.Quiet.{Quiet}
use mt_mcp_proxy.Proxy.Serve.Stateless.{serve_http-Quiet}
use mt_mcp_proxy.Registry.{new, add_backends, backend_url, add_tenants, all_stateless, stateless}
use mt_mcp_proxy.Registry.Build.{new-IsWellFormed}
use mt_mcp_proxy.Registry.Backends.{new-IsBacked}
use mt_mcp_proxy.Fixtures.{calm_config, calm_deployed, parse_any}
use mt_mcp_proxy.Proxy.Catalog.{get, get_entry, is_fresh, cached_tool, find_cached}
use mt_mcp_proxy.Proxy.Catalog.Coherence.{get-cached_tool}
use mt_mcp_proxy.Proxy.World.{World}
use mt_mcp_proxy.Proxy.Route.Sent.{route_to_backend-Sends}
use mt_mcp_proxy.Proxy.ToolsCall.{handle_tools_call}
use mt_mcp_proxy.Proxy.ToolsCall.Delivery.{IsAllowed, handle_tools_call-Sends}
use mt_mcp_proxy.Proxy.Provenance.{IsProven}
use mt_mcp_proxy.Proxy.Serve.{Arrival, serve_all}
use mt_mcp_proxy.Proxy.Serve.Provenance.{serve_all-IsProven}
use mt_mcp_proxy.Base.{length}
use mt_mcp_proxy.Base.Dict.{retain}
use mt_mcp_proxy.Http.{header_get}
use mt_mcp_proxy.Session
use mt_mcp_proxy.Session.{reap_locked, is_idle, set_backend_sid, backend_sid_of}
use mt_mcp_proxy.Proxy.Route
use mt_mcp_proxy.Proxy.Route.{with_session, forward}
use mt_mcp_proxy.Proxy.Serve.{serve_post, serve_rpc, handle_initialize}
use mt_mcp_proxy.Proxy.Client.{initialize, post, post_response, call_tool, notify_initialized}
use mt_mcp_proxy.Proxy.World.{do_request}
use mt_mcp_proxy.Proxy.Mcp.{decode_body}
use mt_mcp_proxy.Proxy.Schema.{struct_field, unmarshal_call_params, strip_tenant_arg}
use mt_mcp_proxy.Proxy.ToolsCall.{call_params, call_tool_named, call_selected}
use mt_mcp_proxy.Proxy.Select.{select_explicit, unavailable}
use mt_mcp_proxy.Registry.{is_authorized}
use mt_mcp_proxy.Fixtures.{opening, deployed, acme, zeta, net, handler, to_acme, posted, start}

deployed-IsWellFormed : IsWellFormed deployed.by_tenant
unfolding lookup
deployed-IsWellFormed = record { nodup = (refl, (refl, tt)); own = (refl, (refl, tt)) }

select_tenant_iff_example :
    (select_tenant net deployed start.catalogs "search" none
        ("dev" ∷ [])
        (authorized_tenants deployed ("dev" ∷ []))
      ≡ ok acme)
    ↔ (In acme (authorized_tenants deployed ("dev" ∷ []))
        × MayHave start.catalogs "search" acme
        × (((extract_tenant_arg none ≢ "") × (extract_tenant_arg none ≡ "acme"))
            ⊎ ((extract_tenant_arg none ≡ "")
                × ((u : Tenant)
                    → In u (authorized_tenants deployed ("dev" ∷ []))
                    → MayHave start.catalogs "search" u
                    → u ≡ acme))))
select_tenant_iff_example =
    select_tenant_iff net deployed start.catalogs "search" ("dev" ∷ []) none acme
      deployed-IsWellFormed

abbrev call : Call
call = record {
  id = some (str "1");
  tenant = acme;
  request = to_acme;
  tool_name = "search";
  param_headers = [];
}

acme_found : resolve_tenant deployed "acme" ≡ ok acme
unfolding resolve_tenant lookup
acme_found = refl

acme_listed : In acme (tenants deployed)
unfolding tenants values
acme_listed = inl refl

zeta_listed : In zeta (tenants deployed)
unfolding tenants values
zeta_listed = inr (inl refl)

start-IsProven : IsProven net deployed start
unfolding lookup
start-IsProven = record {
  valid = record { nodup = tt; sound = λ k sess e. cc };
  proven = λ k sess id sid e b. cc;
}

-- The client opens a session and calls a tool twice.
abbrev visit : List Arrival
visit =
    record {
      wait = 0;
      new_id = "s-1";
      request = posted "" (record { method = "initialize"; params = none; id = some (str "0") });
    }
    ∷ record { wait = 1; new_id = ""; request = posted "s-1" to_acme }
    ∷ record { wait = 1; new_id = ""; request = posted "s-1" to_acme }
    ∷ []

serve_all-IsProven_example : IsProven net deployed (serve_all net handler visit start)
serve_all-IsProven_example =
    serve_all-IsProven net handler deployed-IsWellFormed visit start start-IsProven

-- The client has opened a session, and has called no tool yet.
abbrev in_session : World
in_session =
    serve_all net handler (record { wait = 0; new_id = "s-1"; request = posted "" opening } ∷ [])
      start

in_session-IsProven : IsProven net deployed in_session
in_session-IsProven = serve_all-IsProven net handler deployed-IsWellFormed _ start start-IsProven

handle_tools_call-Sends_example :
    Sends
      (IsAllowed net handler (posted "s-1" to_acme) to_acme in_session)
      in_session
      (handle_tools_call net handler [] (posted "s-1" to_acme) to_acme in_session).2
handle_tools_call-Sends_example =
    handle_tools_call-Sends net handler [] (posted "s-1" to_acme) to_acme in_session
      deployed-IsWellFormed

route_to_backend-Sends_example :
    Sends
      (PostTo net acme call.param_headers)
      in_session
      (route_to_backend net [] (posted "s-1" to_acme) call in_session).1
route_to_backend-Sends_example =
    route_to_backend-Sends net [] call (posted "s-1" to_acme) in_session

route_to_backend-Carries_example :
    Sends
      (Carries net deployed acme call.param_headers
        (route_to_backend net [] (posted "s-1" to_acme) call in_session).1.exchanged)
      in_session
      (route_to_backend net [] (posted "s-1" to_acme) call in_session).1
route_to_backend-Carries_example =
    route_to_backend-Carries net deployed [] call acme_found (posted "s-1" to_acme) in_session
      in_session-IsProven

-- Opening the backend session takes two messages, the call a third.
routed_messages :
    length (route_to_backend net [] (posted "s-1" to_acme) call in_session).1.exchanged ≡ 3
unfolding route_to_backend Route.in_session Session.get reap_locked is_idle lookup retain serve_all
    serve_http serve_post serve_rpc handle_initialize all_stateless Session.mint insert with_session
    initialize post post_response forward call_tool do_request decode_body header_get struct_field
    notify_initialized set_backend_sid backend_sid_of stateless
routed_messages = refl

called_messages :
    length (handle_tools_call net handler [] (posted "s-1" to_acme) to_acme in_session).2.exchanged
    ≡ 3
unfolding handle_tools_call call_params unmarshal_call_params call_tool_named call_selected
    select_tenant extract_tenant_arg select_explicit resolve_tenant is_authorized unavailable
    cached_tool strip_tenant_arg route_to_backend Route.in_session Session.get reap_locked is_idle
    lookup has retain serve_all serve_http serve_post serve_rpc handle_initialize all_stateless
    Session.mint insert with_session initialize post post_response forward call_tool do_request
    decode_body header_get struct_field notify_initialized set_backend_sid backend_sid_of stateless
called_messages = refl

apply_auth_lem_example :
    lookup "Private-Token" (apply_auth net acme.backend "acme-token" (("X-Org", "a") ∷ []) [])
    ≡ or_else (latest net "Private-Token" (("X-Org", "a") ∷ [])) (
        or_else (latest net "Private-Token" acme.backend.headers) (
          or_else
            (credential_header net "Private-Token" acme.backend "acme-token")
            (lookup "Private-Token" [])))
apply_auth_lem_example =
    apply_auth_lem net acme.backend "acme-token" (("X-Org", "a") ∷ []) [] "Private-Token"

new_catalogs_lem_example :
    ((i : ℕ) × (maker : Tenant) × (lookup "acme" (new_catalogs net deployed 300).by_tenant ≡ some i)
      × (get_elem? (new_catalogs net deployed 300).unique i ≡ some (new_catalog maker 300))
      × (view_key net maker ≡ view_key net acme))
    × ((lookup "acme" (new_catalogs net deployed 300).by_tenant
          ≡ lookup "zeta" (new_catalogs net deployed 300).by_tenant)
        ↔ (view_key net acme ≡ view_key net zeta))
new_catalogs_lem_example =
    new_catalogs_lem net 300 deployed acme zeta deployed-IsWellFormed acme_listed zeta_listed

-- Both tenants list the search tool, in different words.
abbrev views : List TenantTools
views =
    record { tenant = acme; tools = (("name", str "search") ∷ []) ∷ [] }
    ∷ record { tenant = zeta; tools = (("name", str "search") ∷ ("title", str "Z") ∷ []) ∷ [] }
    ∷ []

merge_views_lem_example :
    (lookup "search" (merge_views views no_tools).defs ≡ first_def "search" views)
    × (ids_or_nil (lookup "search" (merge_views views no_tools).having) ≡ holders "search" views)
merge_views_lem_example = merge_views_lem "search" views

calm_built : new parse_any (calm_config ∷ []) ≡ ok calm_deployed
unfolding new add_backends backend_url add_tenants has insert lookup
calm_built = refl

calm_stateless : all_stateless calm_deployed ≡ true
unfolding all_stateless stateless
calm_stateless = refl

serve_http-Quiet_example :
    Quiet start
      (serve_http net
        (record handler { registry = calm_deployed })
        "s-1"
        (posted "" to_acme)
        start).world
serve_http-Quiet_example =
    serve_http-Quiet net (record handler { registry = calm_deployed })
      (new-IsWellFormed parse_any (calm_config ∷ []) calm_deployed calm_built)
      (new-IsBacked parse_any (calm_config ∷ []) calm_deployed calm_built) calm_stateless "s-1"
      (posted "" to_acme) start

-- The catalog of `acme` was fetched a second ago.
abbrev warm_world : World
warm_world = record start {
  catalogs = record {
    by_tenant = ("acme", 0) ∷ [];
    unique =
        record (new_catalog acme 300) {
          tools = some ((("name", str "search") ∷ []) ∷ []);
          fetched_at = 99;
        }
        ∷ [];
  };
}

warm_get : (get net 0 warm_world).0 ≡ ok (some ((("name", str "search") ∷ []) ∷ []))
unfolding get get_entry is_fresh new_catalog
warm_get = refl

warm_placed : lookup "acme" warm_world.catalogs.by_tenant ≡ some 0
unfolding lookup
warm_placed = refl

get-cached_tool_example :
    cached_tool (get net 0 warm_world).1.catalogs "acme" "search"
    ≡ find_cached "search" (some ((("name", str "search") ∷ []) ∷ []))
get-cached_tool_example =
    get-cached_tool net "acme" "search" 0 warm_world (some ((("name", str "search") ∷ []) ∷ []))
      warm_placed warm_get
