-- ===== src/Registry/Build.antt =====
-- `New`: what a registry that it returns holds, and what it refuses.
use mt_mcp_proxy.Base.{
  String, ◌≡◌, refl, false, Option, none, some, List, [], ◌∷◌, ◌++◌, ◌==◌, arith, eq_iff, ok, All,
  ok-injective, >>=-eq-ok, subst,
}
use mt_mcp_proxy.Base.Dict.{Dict, lookup, insert, has, IsNodup, lookup-insert, insert-IsNodup}
use mt_mcp_proxy.Config.{BackendConfig, TenantConfig}
use mt_mcp_proxy.Registry.{
  Url, Backend, Tenant, Registry, empty, new_backend, new_tenant, add_tenants, backend_url,
  add_backends, new,
}

-- Every tenant stands under its own id, once.
abbrev pub OwnKeys : Dict Tenant → Type 0
OwnKeys [] = Unit
OwnKeys ((k, t) ∷ m) = (t.id ≡ k) × OwnKeys m

pub record IsWellFormed (m : Dict Tenant) : Type 0 where
  pub nodup : IsNodup m
  pub own : OwnKeys m

insert-OwnKeys : (t : Tenant) (m : Dict Tenant) → OwnKeys m → OwnKeys (insert t.id t m)
unfolding insert
insert-OwnKeys t [] h = (refl, tt)
insert-OwnKeys t ((k, w) ∷ m) (e, h) = ground (arith, insert-OwnKeys t m h, eq_iff k t.id)

insert-IsWellFormed :
    (b : Backend) (tc : TenantConfig) (m : Dict Tenant)
    → IsWellFormed m
    → IsWellFormed (insert tc.id (new_tenant b tc) m)
insert-IsWellFormed b tc m h = record {
  nodup = insert-IsNodup tc.id (new_tenant b tc) m h.nodup;
  own = insert-OwnKeys (new_tenant b tc) m h.own;
}

-- One round of the inner loop that goes on: the id was free.
pub add_tenants-cons :
    (b : Backend) (tc : TenantConfig) (tcs : List TenantConfig) (m m' : Dict Tenant)
    → add_tenants b (tc ∷ tcs) m ≡ ok m'
    → (lookup tc.id m ≡ none) × (add_tenants b tcs (insert tc.id (new_tenant b tc) m) ≡ ok m')
unfolding add_tenants has
add_tenants-cons b tc tcs m m' h = (ground arith, ground arith)

add_tenants-IsWellFormed :
    (b : Backend) (tcs : List TenantConfig) (m m' : Dict Tenant)
    → add_tenants b tcs m ≡ ok m'
    → IsWellFormed m
    → IsWellFormed m'
add_tenants-IsWellFormed b [] m m' h w = unfold add_tenants in ground arith
add_tenants-IsWellFormed b (tc ∷ tcs) m m' h w =
    add_tenants-IsWellFormed b tcs _ m' (add_tenants-cons b tc tcs m m' h).1
      (insert-IsWellFormed b tc m w)

-- What was registered stays.
add_tenants-lookup :
    (b : Backend) (tcs : List TenantConfig) (m m' : Dict Tenant) (k : String) (t : Tenant)
    → add_tenants b tcs m ≡ ok m'
    → lookup k m ≡ some t
    → lookup k m' ≡ some t
add_tenants-lookup b [] m m' k t h e = unfold add_tenants in ground arith
add_tenants-lookup b (tc ∷ tcs) m m' k t h e =
    let (free, rest) = add_tenants-cons b tc tcs m m' h in
    add_tenants-lookup b tcs _ m' k t rest
      (ground (arith, lookup-insert tc.id k (new_tenant b tc) m, eq_iff tc.id k))

abbrev pub Holds : Dict Tenant → Backend → List TenantConfig → Type 0
Holds m b tcs = All (λ tc. lookup tc.id m ≡ some (new_tenant b tc)) tcs

add_tenants-Holds :
    (b : Backend) (tcs : List TenantConfig) (m m' : Dict Tenant)
    → add_tenants b tcs m ≡ ok m'
    → Holds m' b tcs
add_tenants-Holds b [] m m' h = tt
add_tenants-Holds b (tc ∷ tcs) m m' h =
    let (free, rest) = add_tenants-cons b tc tcs m m' h in
    (
      add_tenants-lookup b tcs _ m' tc.id (new_tenant b tc) rest
          (ground (arith, lookup-insert tc.id tc.id (new_tenant b tc) m, eq_iff tc.id tc.id)),
      add_tenants-Holds b tcs _ m' rest,
    )

Holds-keep :
    (b b' : Backend) (done tcs : List TenantConfig) (m m' : Dict Tenant)
    → add_tenants b tcs m ≡ ok m'
    → Holds m b' done
    → Holds m' b' done
Holds-keep b b' [] tcs m m' h k = tt
Holds-keep b b' (tc ∷ done) tcs m m' h (e, k) =
    (add_tenants-lookup b tcs m m' tc.id (new_tenant b' tc) h e, Holds-keep b b' done tcs m m' h k)

-- One round of the outer loop that goes on.
pub record Round (parse_url : String → Option Url) (bc : BackendConfig) (bcs : List BackendConfig)
    (r r' : Registry) : Type 0 where
  pub u : Url
  pub m : Dict Tenant
  pub url : parse_url bc.url ≡ some u
  pub added : add_tenants (new_backend bc u) bc.tenants r.by_tenant ≡ ok m
  pub later :
      add_backends parse_url bcs
        (record { by_tenant = m; backends = r.backends ++ new_backend bc u ∷ [] })
      ≡ ok r'

module _ (parse_url : String → Option Url) where
  backend_url-eq-ok :
      (bc : BackendConfig) (u : Url)
      → backend_url parse_url bc ≡ ok u
      → (parse_url bc.url ≡ some u) × ((u.scheme == "") ≡ false) × ((u.host == "") ≡ false)
  unfolding backend_url
  backend_url-eq-ok bc u h = (ground arith, ground arith, ground arith)

  pub add_backends-cons :
      (bc : BackendConfig) (bcs : List BackendConfig) (r r' : Registry)
      → add_backends parse_url (bc ∷ bcs) r ≡ ok r'
      → Round parse_url bc bcs r r'
  unfolding add_backends
  add_backends-cons bc bcs r r' h =
      let (u, url, rest) = >>=-eq-ok (backend_url parse_url bc) _ h in
      let (m, added, later) =
        >>=-eq-ok (add_tenants (new_backend bc u) bc.tenants r.by_tenant) _ rest in
      record { u = u; m = m; url = (backend_url-eq-ok bc u url).0; added = added; later = later }

  -- Every tenant of the backend's entry resolves to what the entry says.
  abbrev pub Serves : Registry → BackendConfig → Type 0
  Serves r bc =
      (u : Url) × (parse_url bc.url ≡ some u) × Holds r.by_tenant (new_backend bc u) bc.tenants

  add_backends-Holds :
      (bcs : List BackendConfig) (r r' : Registry) (b : Backend) (tcs : List TenantConfig)
      → add_backends parse_url bcs r ≡ ok r'
      → Holds r.by_tenant b tcs
      → Holds r'.by_tenant b tcs
  add_backends-Holds [] r r' b tcs h k =
      unfold add_backends in subst (λ q. Holds q.by_tenant b tcs) (ok-injective h) k
  add_backends-Holds (bc ∷ bcs) r r' b tcs h k =
      let c = add_backends-cons bc bcs r r' h in
      add_backends-Holds bcs _ r' b tcs c.later
        (Holds-keep (new_backend bc c.u) b tcs bc.tenants r.by_tenant c.m c.added k)

  pub add_backends-Serves :
      (bcs : List BackendConfig) (r r' : Registry)
      → add_backends parse_url bcs r ≡ ok r'
      → All (Serves r') bcs
  add_backends-Serves [] r r' h = tt
  add_backends-Serves (bc ∷ bcs) r r' h =
      let c = add_backends-cons bc bcs r r' h in
      (
        (
          c.u,
          c.url,
          add_backends-Holds bcs _ r' (new_backend bc c.u) bc.tenants c.later
              (add_tenants-Holds (new_backend bc c.u) bc.tenants r.by_tenant c.m c.added),
        ),
        add_backends-Serves bcs _ r' c.later,
      )

  add_backends-IsWellFormed :
      (bcs : List BackendConfig) (r r' : Registry)
      → add_backends parse_url bcs r ≡ ok r'
      → IsWellFormed r.by_tenant
      → IsWellFormed r'.by_tenant
  add_backends-IsWellFormed [] r r' h w =
      unfold add_backends in subst (λ q. IsWellFormed q.by_tenant) (ok-injective h) w
  add_backends-IsWellFormed (bc ∷ bcs) r r' h w =
      let c = add_backends-cons bc bcs r r' h in
      add_backends-IsWellFormed bcs _ r' c.later
        (add_tenants-IsWellFormed (new_backend bc c.u) bc.tenants r.by_tenant c.m c.added w)

  pub new-eq-ok :
      (bcs : List BackendConfig) (r : Registry)
      → new parse_url bcs ≡ ok r
      → add_backends parse_url bcs empty ≡ ok r
  unfolding new
  new-eq-ok bcs r h =
      let (q, e, rest) = >>=-eq-ok (add_backends parse_url bcs empty) _ h in
      let same : q ≡ r = ground arith in subst (λ x. add_backends parse_url bcs empty ≡ ok x) same e

  -- If `New` returns a registry, every tenant of every backend entry resolves, under its own id,
  -- to the tenant that the entry describes, on the backend that the entry describes (with the
  -- defaults for the credential header, the scheme and the protocol version).
  pub new-Serves :
      (bcs : List BackendConfig) (r : Registry) → new parse_url bcs ≡ ok r → All (Serves r) bcs
  new-Serves bcs r h = add_backends-Serves bcs _ r (new-eq-ok bcs r h)

  -- If `New` returns a registry, no id stands in its index twice, and every tenant of the index
  -- stands under its own id.
  pub new-IsWellFormed :
      (bcs : List BackendConfig) (r : Registry)
      → new parse_url bcs ≡ ok r
      → IsWellFormed r.by_tenant
  new-IsWellFormed bcs r h =
      add_backends-IsWellFormed bcs _ r (new-eq-ok bcs r h) (record { nodup = tt; own = tt })

-- What resolves has the id that it resolves from.
pub own-lookup :
    (m : Dict Tenant) (k : String) (t : Tenant) → OwnKeys m → lookup k m ≡ some t → t.id ≡ k
unfolding lookup
own-lookup [] k t o h = cc
own-lookup ((j, v) ∷ m) k t (e, o) h = ground (arith, eq_iff j k, own-lookup m k t o)
