-- ===== src/Registry/Complete.antt =====
-- `New` on a usable configuration: only a URL can be refused.
use mt_mcp_proxy.Base.{
  String, ◌≡◌, refl, ◌≢◌, false, Option, some, List, [], ◌∷◌, ◌++◌, arith, eq_iff, Result, ok,
  is_empty, All,
}
use mt_mcp_proxy.Base.Dict.{Dict, lookup, insert, has}
use mt_mcp_proxy.Config.{BackendConfig, TenantConfig, Config}
use mt_mcp_proxy.Config.Validate.Usable.{AreNew, AreNew-concat, push, ids, all_ids, IsBackend}
use mt_mcp_proxy.Config.Validate.Tenants.{Tracks, Tracks-insert, Tracks-empty}
use mt_mcp_proxy.Config.Validate.Laws.{validate_iff}
use mt_mcp_proxy.Config.Validate.{validate}
use mt_mcp_proxy.Registry.Build.{Holds, Serves, add_backends-Serves}
use mt_mcp_proxy.Registry.{
  Error, Url, Backend, Tenant, Registry, empty, new_backend, new_tenant, add_tenants, backend_url,
  add_backends, new,
}

-- The URL parses, with a scheme and a host.
pub record IsAbsolute (parse_url : String → Option Url) (bc : BackendConfig) : Type 0 where
  pub u : Url
  pub parses : parse_url bc.url ≡ some u
  pub scheme : u.scheme ≢ ""
  pub host : u.host ≢ ""

pub add_tenants_complete :
    (b : Backend) (tcs : List TenantConfig) (m : Dict Tenant) (seen : List String)
    → Tracks m seen
    → AreNew seen (ids tcs)
    → (m' : Dict Tenant) × (add_tenants b tcs m ≡ ok m') × Tracks m' (push (ids tcs) seen)
add_tenants_complete b [] m seen t _ = (m, unfold add_tenants in refl, t)
add_tenants_complete b (tc ∷ tcs) m seen t (free, fresh) =
    let (m', runs, tracks) =
      add_tenants_complete b tcs (insert tc.id (new_tenant b tc) m) (tc.id ∷ seen)
        (Tracks-insert tc.id (new_tenant b tc) m seen t) fresh in
    (m', add_tenants-free b tc tcs m m' (cc (t tc.id)) runs, tracks)
  where
    add_tenants-free :
        (b : Backend) (tc : TenantConfig) (tcs : List TenantConfig) (m m' : Dict Tenant)
        → has tc.id m ≡ false
        → add_tenants b tcs (insert tc.id (new_tenant b tc) m) ≡ ok m'
        → add_tenants b (tc ∷ tcs) m ≡ ok m'
    add_tenants-free b tc tcs m m' free rest = unfold add_tenants in rw free rest

resolves : (m : Dict Tenant) (k : String) {t : Tenant} → lookup k m ≡ some t → is_empty m ≡ false
unfolding lookup
resolves [] k h = cc
resolves (e ∷ m) k h = refl

module _ (parse_url : String → Option Url) where
  backend_url-IsAbsolute :
      (bc : BackendConfig) (h : IsAbsolute parse_url bc) → backend_url parse_url bc ≡ ok h.u
  unfolding backend_url
  backend_url-IsAbsolute bc h =
      rw (h.parses, backend_url)
        (ground (arith, h.scheme, h.host, eq_iff h.u.scheme "", eq_iff h.u.host ""))

  pub add_backends-go :
      (bc : BackendConfig) (bcs : List BackendConfig) (r : Registry) (u : Url) (m : Dict Tenant)
      {result : Result Error Registry}
      → backend_url parse_url bc ≡ ok u
      → add_tenants (new_backend bc u) bc.tenants r.by_tenant ≡ ok m
      → add_backends parse_url bcs
          (record { by_tenant = m; backends = r.backends ++ new_backend bc u ∷ [] })
        ≡ result
      → add_backends parse_url (bc ∷ bcs) r ≡ result
  unfolding add_backends
  add_backends-go bc bcs r u m absolute added rest = rw (absolute, added) rest

  add_backends_complete :
      (bcs : List BackendConfig) (r : Registry) (seen : List String)
      → All (IsAbsolute parse_url) bcs
      → Tracks r.by_tenant seen
      → AreNew seen (all_ids bcs)
      → (r' : Registry) × (add_backends parse_url bcs r ≡ ok r')
  add_backends_complete [] r seen _ t _ = (r, unfold add_backends in refl)
  add_backends_complete (bc ∷ bcs) r seen (good, h) t fresh =
      let (fresh, later) = (AreNew-concat seen (ids bc.tenants) (all_ids bcs)).0 fresh in
      let (m, added, tracks) =
        add_tenants_complete (new_backend bc good.u) bc.tenants r.by_tenant seen t fresh in
      let r' : Registry = record {
        by_tenant = m;
        backends = r.backends ++ new_backend bc good.u ∷ [];
      } in
      let (result, runs) =
        add_backends_complete bcs r' (push (ids bc.tenants) seen) h tracks later in
      (result, add_backends-go bc bcs r good.u m (backend_url-IsAbsolute bc good) added runs)

  -- A tenant of the first backend resolves, so the index is not empty.
  pub not_empty :
      (bcs : List BackendConfig) (r : Registry)
      → All (Serves parse_url r) bcs
      → All IsBackend bcs
      → bcs ≢ []
      → is_empty r.by_tenant ≡ false
  not_empty [] r s h e = absurd (e refl)
  not_empty (bc ∷ bcs) r ((u, parses, holds), s) (h, _) e = first bc.tenants h.tenants holds
    where
      first :
          (tcs : List TenantConfig)
          → tcs ≢ []
          → Holds r.by_tenant (new_backend bc u) tcs
          → is_empty r.by_tenant ≡ false
      first [] e h = absurd (e refl)
      first (tc ∷ tcs) e (found, h) = resolves r.by_tenant tc.id found

  -- If `Validate` accepts a configuration and the URL of each of its backends is absolute, `New`
  -- returns a registry for its backends: a duplicate tenant and an empty registry cannot occur.
  pub new_complete :
      (c : Config)
      → validate c ≡ ok tt
      → All (IsAbsolute parse_url) c.backends
      → (r : Registry) × (new parse_url c.backends ≡ ok r)
  unfolding new
  new_complete c valid absolute =
      let usable = (validate_iff c).0 valid in
      let (r, runs) =
        add_backends_complete c.backends empty [] absolute (Tracks-empty Tenant)
          usable.distinct_ids in
      let served = add_backends-Serves parse_url c.backends empty r runs in
      (r, rw (runs, not_empty c.backends r served usable.each usable.some_backend) refl)
