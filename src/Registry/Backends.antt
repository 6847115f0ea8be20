-- ===== src/Registry/Backends.antt =====
-- The backends of a registry: `AllStateless` speaks for every tenant.
use mt_mcp_proxy.Base.{
  String, ◌≡◌, subst, inl, inr, true, Option, some, List, [], ◌∷◌, ◌++◌, ◌==◌, arith, ok,
  ok-injective, In, Bool-cases,
}
use mt_mcp_proxy.Base.Dict.{Dict, lookup, insert, lookup-insert}
use mt_mcp_proxy.Base.Member.{In-left, In-last, In-all}
use mt_mcp_proxy.Config.{BackendConfig, TenantConfig}
use mt_mcp_proxy.Registry.{
  Url, Backend, Tenant, Registry, new_backend, new_tenant, add_tenants, add_backends, new,
  all_stateless, resolve_tenant, stateless,
}
use mt_mcp_proxy.Registry.Build.{add_tenants-cons, add_backends-cons, new-eq-ok}

-- The backend of every tenant is among the registry's backends.
abbrev pub IsBacked : Dict Tenant → List Backend → Type 0
IsBacked m bs = (k : String) (t : Tenant) → lookup k m ≡ some t → In t.backend bs

add_tenants-IsBacked :
    (b : Backend) (tcs : List TenantConfig) (m m' : Dict Tenant) (bs : List Backend)
    → add_tenants b tcs m ≡ ok m'
    → In b bs
    → IsBacked m bs
    → IsBacked m' bs
add_tenants-IsBacked b [] m m' bs h i k =
    unfold add_tenants in subst (λ q. IsBacked q bs) (ok-injective h) k
add_tenants-IsBacked b (tc ∷ tcs) m m' bs h i k =
    add_tenants-IsBacked b tcs (insert tc.id (new_tenant b tc) m) m' bs
      (add_tenants-cons b tc tcs m m' h).1 i
      (λ j t e. elim (Bool-cases (tc.id == j)) [
        | inl q ↦
            let same : new_tenant b tc ≡ t =
              ground (arith, lookup-insert tc.id j (new_tenant b tc) m, e, q) in
            subst (λ u. In u.backend bs) same i
        | inr q ↦ k j t (ground (arith, lookup-insert tc.id j (new_tenant b tc) m, e, q))
      ])

module _ (parse_url : String → Option Url) where
  add_backends-IsBacked :
      (bcs : List BackendConfig) (r r' : Registry)
      → add_backends parse_url bcs r ≡ ok r'
      → IsBacked r.by_tenant r.backends
      → IsBacked r'.by_tenant r'.backends
  add_backends-IsBacked [] r r' h k =
      unfold add_backends in subst (λ q. IsBacked q.by_tenant q.backends) (ok-injective h) k
  add_backends-IsBacked (bc ∷ bcs) r r' h k =
      let c = add_backends-cons parse_url bc bcs r r' h in
      let b = new_backend bc c.u in
      add_backends-IsBacked bcs _ r' c.later (
        add_tenants-IsBacked b bc.tenants r.by_tenant c.m (r.backends ++ b ∷ []) c.added
          (In-last b r.backends) (λ j t e. In-left t.backend r.backends (b ∷ []) (k j t e)))

  nothing-IsBacked : IsBacked [] []
  unfolding lookup
  nothing-IsBacked k t e = cc

  -- If `New` returns a registry, the backend of every tenant that an id resolves to is among its
  -- backends.
  pub new-IsBacked :
      (bcs : List BackendConfig) (r : Registry)
      → new parse_url bcs ≡ ok r
      → IsBacked r.by_tenant r.backends
  new-IsBacked bcs r h =
      add_backends-IsBacked bcs _ r (new-eq-ok parse_url bcs r h) nothing-IsBacked

-- Where `AllStateless` holds, the backend of whatever resolves is stateless.
pub all_stateless-resolve_tenant :
    (r : Registry) (id : String) (t : Tenant)
    → IsBacked r.by_tenant r.backends
    → all_stateless r ≡ true
    → resolve_tenant r id ≡ ok t
    → stateless t.backend ≡ true
unfolding all_stateless resolve_tenant
all_stateless-resolve_tenant r id t b h e =
    In-all stateless r.backends t.backend (ground arith) (b id t (ground arith))
