-- ===== src/Proxy/Catalog.antt =====
-- internal/proxy/catalog.go: one cached tool list for each distinct view of a backend. A catalog's
-- lock makes `get` one step.
pub mod Cache
pub mod Fresh
pub mod Coherence
pub mod Sharing
pub mod Warm
use Prim.Native.Char.{nul}
use Prim.Native.String.{[] as empty_text, ◌∷◌ as cons_char, ◌++◌ as append}
use mt_mcp_proxy.Base.{
  ℕ, zero, suc, ◌+◌, ◌-◌, String, Bool, true, false, not, ◌&&◌, Option, none, some, List, [], ◌∷◌,
  ◌++◌, ◌==◌, Result, ok, err, ltb, length, get_elem?, set, is_empty, if◌then◌else◌,
}
use mt_mcp_proxy.Base.Dict.{Dict, lookup, insert, keys}
use mt_mcp_proxy.Base.Sort.{sort_by}
use mt_mcp_proxy.Json.{Json, str, object, unmarshal_string}
use mt_mcp_proxy.Http.{or_empty}
use mt_mcp_proxy.Registry.{Registry, Backend, Tenant, tenants, effective_credential, stateless}
use mt_mcp_proxy.Proxy.Mcp.{RawTool}
use mt_mcp_proxy.Proxy.Schema.{string_or_empty}
use mt_mcp_proxy.Proxy.World.{Env, World, Catalogs, CatalogEntry}
use mt_mcp_proxy.Proxy.Client.{ClientError, initialize, notify_initialized, list_tools}

-- `defaultInitParams`
abbrev pub default_init_params : Json
default_init_params = object (
    ("protocolVersion", str "2025-03-26")
    ∷ ("capabilities", object [])
    ∷ ("clientInfo", object (("name", str "mt-mcp-proxy") ∷ ("version", str "0") ∷ []))
    ∷ [])

abbrev nul_then : String → String
nul_then s = cons_char nul s

-- The part of `viewKey` for the headers, by sorted key.
abbrev key_headers : Env → Dict String → List String → String
key_headers env headers [] = ""
key_headers env headers (k ∷ ks) =
    append (nul_then (append (env.canonical k) (append "=" (or_empty (lookup k headers)))))
      (key_headers env headers ks)

unfoldable pub view_key : Env → Tenant → String
unfolding effective_credential keys
view_key env t = append t.backend.name (
    append (nul_then (effective_credential t))
      (key_headers env t.headers (sort_by (λ k. k) (keys t.headers))))

unfoldable pub new_catalog : Tenant → ℕ → CatalogEntry
unfolding effective_credential
new_catalog t ttl = record {
  backend = t.backend;
  cred = effective_credential t;
  headers = t.headers;
  ttl = ttl;
  tools = none;
  fetched_at = 0;
}

-- The loop of `NewCatalogs`, with `byKey`.
abbrev pub place : Tenant → ℕ → String → Option ℕ → Dict ℕ → Catalogs → Dict ℕ × Catalogs
place t ttl key (some i) by_key cs = (by_key, record cs { by_tenant = insert t.id i cs.by_tenant })
place t ttl key none by_key cs = (
  insert key (length cs.unique) by_key,
  record {
    by_tenant = insert t.id (length cs.unique) cs.by_tenant;
    unique = cs.unique ++ new_catalog t ttl ∷ [];
  },
)

unfoldable pub add_views : Env → ℕ → List Tenant → Dict ℕ → Catalogs → Catalogs
add_views env ttl [] by_key cs = cs
add_views env ttl (t ∷ ts) by_key cs =
    let (by_key', cs') = place t ttl (view_key env t) (lookup (view_key env t) by_key) by_key cs in
    add_views env ttl ts by_key' cs'

unfoldable pub new_catalogs : Env → Registry → ℕ → Catalogs
unfolding add_views tenants
new_catalogs env reg ttl =
    add_views env ttl (sort_by (λ t. t.id) (tenants reg)) []
      (record { by_tenant = []; unique = [] })

unfoldable pub tool_name : RawTool → String
tool_name t = string_or_empty (lookup "name" t)

abbrev pub finish_fetch :
    Env
    → CatalogEntry
    → Result ClientError String
    → World
    → Result ClientError (Option (List RawTool)) × World
finish_fetch env c (err e) w = (err e, w)
finish_fetch env c (ok sid) w =
    list_tools env c.backend sid c.cred c.headers
      (if not (sid == "") then notify_initialized env c.backend sid c.cred w else w)

unfoldable pub fetch :
    Env → CatalogEntry → World → Result ClientError (Option (List RawTool)) × World
unfolding stateless
fetch env c w =
    if stateless c.backend
    then list_tools env c.backend "" c.cred c.headers w
    else (let (r, w') = initialize env c.backend default_init_params c.cred w in
        finish_fetch env c r w')

-- The tools are cached and younger than the time to live.
unfoldable pub is_fresh : ℕ → CatalogEntry → Bool
is_fresh now c = elim c.tools [ none ↦ false | some ts ↦ ltb (now - c.fetched_at) c.ttl ]

abbrev pub store_entry : ℕ → CatalogEntry → World → World
store_entry i c w = record w { catalogs = record w.catalogs { unique = set w.catalogs.unique i c } }

-- A refresh that fails serves the stale copy, if there is one.
abbrev pub refreshed :
    ℕ
    → CatalogEntry
    → Result ClientError (Option (List RawTool))
    → World
    → Result ClientError (Option (List RawTool)) × World
refreshed i c (ok ts) w = (ok ts, store_entry i (record c { tools = ts; fetched_at = w.now }) w)
refreshed i c (err e) w = elim c.tools [ none ↦ (err e, w) | some ts ↦ (ok (some ts), w) ]

unfoldable pub get_entry :
    Env → ℕ → CatalogEntry → World → Result ClientError (Option (List RawTool)) × World
unfolding is_fresh
get_entry env i c w =
    if is_fresh w.now c
    then (ok c.tools, w)
    else (let (r, w') = fetch env c w in refreshed i c r w')

abbrev pub missing_entry : ClientError
missing_entry = ClientError.bad_request

-- `catalog.get` on the catalog at a place of `unique`; every place that a tenant has is there.
unfoldable pub get : Env → ℕ → World → Result ClientError (Option (List RawTool)) × World
get env i w = elim (get_elem? w.catalogs.unique i) [
  | none ↦ (err missing_entry, w)
  | some c ↦ get_entry env i c w
]

-- `tenantTools`; a nil tool list is an empty one here.
pub record TenantTools : Type 0 where
  pub tenant : Tenant
  pub tools : List RawTool

abbrev tools_or_nil : Option (List RawTool) → List RawTool
tools_or_nil none = []
tools_or_nil (some ts) = ts

abbrev pub Views : Type 0
Views = List TenantTools × List ClientError

abbrev add_view : Tenant → Result ClientError (Option (List RawTool)) → Views → Views
add_view t (ok ts) (out, errs) = (record { tenant = t; tools = tools_or_nil ts } ∷ out, errs)
add_view t (err e) (out, errs) = (out, e ∷ errs)

-- The loop of `toolsFor`: the lists that were had, and the errors of the others.
unfoldable pub collect : Env → List Tenant → World → Views × World
collect env [] w = (([], []), w)
collect env (t ∷ ts) w = elim (lookup t.id w.catalogs.by_tenant) [
  | none ↦ collect env ts w
  | some i ↦
      let (r, w') = get env i w in let (views, w'') = collect env ts w' in (add_view t r views, w'')
]

-- It fails when no list was had and some failed.
unfoldable pub tools_for :
    Env → List Tenant → World → Result (List ClientError) (List TenantTools) × World
tools_for env ts w =
    let (views, w') = collect env ts w in
    (if is_empty views.0 && not (is_empty views.1) then err views.1 else ok views.0, w')

-- The loop of `warm` over the catalogs, `n` of which are left; the errors of those that failed.
abbrev add_error : Result ClientError (Option (List RawTool)) → List ClientError → List ClientError
add_error (ok ts) errs = errs
add_error (err e) errs = e ∷ errs

unfoldable pub warm_from : Env → ℕ → ℕ → World → List ClientError × World
warm_from env i zero w = ([], w)
warm_from env i (suc n) w =
    let (r, w') = get env i w in
    let (errs, w'') = warm_from env (suc i) n w' in (add_error r errs, w'')

unfoldable pub warm : Env → World → List ClientError × World
unfolding warm_from
warm env w = warm_from env 0 (length w.catalogs.unique) w

-- `cachedTool`: the tool, if it is found; `known` is whether the catalog was fetched.
pub data Cached : Type 0 where
  unknown absent : Cached
  found : RawTool → Cached

abbrev pub find_tool : String → List RawTool → Cached
find_tool name [] = absent
find_tool name (t ∷ ts) = if tool_name t == name then found t else find_tool name ts

abbrev pub find_cached : String → Option (List RawTool) → Cached
find_cached name none = unknown
find_cached name (some ts) = find_tool name ts

abbrev pub tools_at : Catalogs → Option ℕ → Option (List RawTool)
tools_at cs none = none
tools_at cs (some i) = elim (get_elem? cs.unique i) [ none ↦ none | some c ↦ c.tools ]

-- The cached tools of a tenant's catalog, without fetching.
abbrev pub cached : Catalogs → String → Option (List RawTool)
cached cs id = tools_at cs (lookup id cs.by_tenant)

unfoldable pub cached_tool : Catalogs → String → String → Cached
unfolding tool_name
cached_tool cs tenant_id name = find_cached name (cached cs tenant_id)
