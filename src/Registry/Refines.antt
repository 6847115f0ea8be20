-- ===== src/Registry/Refines.antt =====
-- The registry against the configuration itself, searched from the top.
use mt_mcp_proxy.Base.{
  String, ◌≡◌, refl, sym, ap, ◌∙◌, Option, none, some, List, [], ◌∷◌, ◌==◌, arith, eq_iff, Result,
  ok, err, ok-injective, if◌then◌else◌,
}
use mt_mcp_proxy.Base.Dict.{Dict, lookup, lookup-insert}
use mt_mcp_proxy.Config.{BackendConfig, TenantConfig}
use mt_mcp_proxy.Registry.Build.{add_tenants-cons, add_backends-cons, new-eq-ok}
use mt_mcp_proxy.Registry.{
  Error, unknown_tenant, Url, Tenant, Registry, empty, new_backend, new_tenant, add_tenants,
  add_backends, new, resolve_tenant,
}

abbrev pub find_tenant : String → List TenantConfig → Option TenantConfig
find_tenant id [] = none
find_tenant id (tc ∷ tcs) = let later = find_tenant id tcs in if tc.id == id then some tc else later

-- The tenant of an entry, on the backend of its entry.
abbrev built : Option Url → BackendConfig → TenantConfig → Option Tenant
built none bc tc = none
built (some u) bc tc = some (new_tenant (new_backend bc u) tc)

abbrev or_else : Option Tenant → Option Tenant → Option Tenant
or_else none o = o
or_else (some t) o = some t

abbrev on_backend : Option Url → BackendConfig → Option TenantConfig → Option Tenant
on_backend u bc none = none
on_backend u bc (some tc) = built u bc tc

-- The first entry with the id, in the order of the configuration.
abbrev pub served : (String → Option Url) → String → List BackendConfig → Option Tenant
served parse_url id [] = none
served parse_url id (bc ∷ bcs) =
    or_else (on_backend (parse_url bc.url) bc (find_tenant id bc.tenants)) (served parse_url id bcs)

abbrev pub or_unknown : String → Option Tenant → Result Error Tenant
or_unknown id none = err (unknown_tenant id)
or_unknown id (some t) = ok t

or_else-none : (o : Option Tenant) → o ≡ or_else o none
or_else-none none = refl
or_else-none (some t) = refl

or_else_assoc : (o p q : Option Tenant) → or_else (or_else o p) q ≡ or_else o (or_else p q)
or_else_assoc none p q = refl
or_else_assoc (some t) p q = refl

module _ (id : String) where
  resolve_found :
      (r : Registry) (o : Option Tenant)
      → lookup id r.by_tenant ≡ o
      → resolve_tenant r id ≡ or_unknown id o
  unfolding resolve_tenant
  resolve_found r none h = rw (h, resolve_tenant) refl
  resolve_found r (some t) h = rw (h, resolve_tenant) refl

  add_tenants-find :
      (bc : BackendConfig) (u : Url) (tcs : List TenantConfig) (m m' : Dict Tenant)
      → add_tenants (new_backend bc u) tcs m ≡ ok m'
      → lookup id m' ≡ or_else (lookup id m) (on_backend (some u) bc (find_tenant id tcs))
  add_tenants-find bc u [] m m' h =
      unfold add_tenants in ap (lookup id) (sym (ok-injective h)) ∙ or_else-none (lookup id m)
  add_tenants-find bc u (tc ∷ tcs) m m' h =
      let (free, rest) = add_tenants-cons (new_backend bc u) tc tcs m m' h in
      let later = add_tenants-find bc u tcs _ m' rest in
      ground (
        arith,
        free,
        later,
        eq_iff tc.id id,
        lookup-insert tc.id id (new_tenant (new_backend bc u) tc) m,
      )

  module _ (parse_url : String → Option Url) where
    add_backends-served :
        (bcs : List BackendConfig) (r r' : Registry)
        → add_backends parse_url bcs r ≡ ok r'
        → lookup id r'.by_tenant ≡ or_else (lookup id r.by_tenant) (served parse_url id bcs)
    add_backends-served [] r r' h =
        unfold add_backends in
        ap (λ (q : Registry). lookup id q.by_tenant) (sym (ok-injective h))
        ∙ or_else-none (lookup id r.by_tenant)
    add_backends-served (bc ∷ bcs) r r' h =
        let c = add_backends-cons parse_url bc bcs r r' h in
        let first = add_tenants-find bc c.u bc.tenants r.by_tenant c.m c.added in
        let later = add_backends-served bcs _ r' c.later in
        rw c.url (
          later
          ∙ ap (λ q. or_else q (served parse_url id bcs)) first
          ∙ or_else_assoc (lookup id r.by_tenant) _ (served parse_url id bcs))

    -- If `New` returns a registry, a tenant id resolves in it exactly as it is found by searching
    -- the configuration from the top: to the first entry with the id, on the backend of that entry,
    -- and to an unknown tenant where no entry has it.
    pub resolve_tenant-served :
        (bcs : List BackendConfig) (r : Registry)
        → new parse_url bcs ≡ ok r
        → resolve_tenant r id ≡ or_unknown id (served parse_url id bcs)
    unfolding resolve_tenant
    resolve_tenant-served bcs r h =
        let found = add_backends-served bcs empty r (new-eq-ok parse_url bcs r h) in
        unfold lookup in resolve_found r _ found
