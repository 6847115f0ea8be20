-- ===== src/Registry/Tests.antt =====
-- `New` on the configuration of the fixtures, and who may select what.
use mt_mcp_proxy.Base.{
  ◌≡◌, ◌↔◌, refl, String, true, [], ◌∷◌, ok, err, All, In, inl, inr, Bool-cases, subst, eq_iff,
  ◌==◌,
}
use mt_mcp_proxy.Base.Dict.{lookup, insert, has}
use mt_mcp_proxy.Registry.{
  Registry, duplicate_tenant, new, add_backends, add_tenants, backend_url, is_authorized,
  authorized_tenants, resolve_tenant,
}
use mt_mcp_proxy.Registry.Build.{Serves, IsWellFormed, new-Serves}
use mt_mcp_proxy.Config.Validate.{
  validate, validate_auth, validate_backends, validate_backend, validate_tenants,
}
use mt_mcp_proxy.Registry.Complete.{IsAbsolute, new_complete}
use mt_mcp_proxy.Registry.Refines.{served, or_unknown, resolve_tenant-served}
use mt_mcp_proxy.Registry.Authorize.{In-authorized_tenants, authorized_tenants_order}
use mt_mcp_proxy.Fixtures.{parse_any, configs, gitlab_config, deployed, acme, zeta, usable_config}

deployed_built : new parse_any configs ≡ ok deployed
unfolding new add_backends backend_url add_tenants has insert
deployed_built = refl

-- An id that two backends have is refused.
twice_refused : new parse_any (gitlab_config ∷ gitlab_config ∷ []) ≡ err (duplicate_tenant "acme")
unfolding new add_backends backend_url add_tenants has insert
twice_refused = refl

deployed-IsWellFormed : IsWellFormed deployed.by_tenant
unfolding lookup
deployed-IsWellFormed = record { nodup = (refl, (refl, tt)); own = (refl, (refl, tt)) }

new-Serves_example : All (Serves parse_any deployed) configs
new-Serves_example = new-Serves parse_any configs deployed deployed_built

In-authorized_tenants_example :
    In acme (authorized_tenants deployed ("dev" ∷ []))
    ↔ ((resolve_tenant deployed "acme" ≡ ok acme) × (is_authorized acme ("dev" ∷ []) ≡ true))
In-authorized_tenants_example =
    In-authorized_tenants deployed ("dev" ∷ []) acme deployed-IsWellFormed

abbrev turned : Registry
turned = record { by_tenant = ("zeta", zeta) ∷ ("acme", acme) ∷ []; backends = deployed.backends }

turned-IsWellFormed : IsWellFormed turned.by_tenant
unfolding lookup
turned-IsWellFormed = record { nodup = (refl, (refl, tt)); own = (refl, (refl, tt)) }

turned_same : (id : String) → resolve_tenant deployed id ≡ resolve_tenant turned id
unfolding resolve_tenant lookup
turned_same id = elim (Bool-cases ("acme" == id)) [
  | inl e ↦
      subst (λ k. resolve_tenant deployed k ≡ resolve_tenant turned k) ((eq_iff "acme" id).0 e) refl
  | inr e ↦ rw (e, resolve_tenant, lookup) refl
]

authorized_tenants_order_example :
    authorized_tenants deployed ("ops" ∷ []) ≡ authorized_tenants turned ("ops" ∷ [])
authorized_tenants_order_example =
    authorized_tenants_order deployed turned ("ops" ∷ []) deployed-IsWellFormed turned-IsWellFormed
      turned_same

usable_valid : validate usable_config ≡ ok tt
unfolding validate validate_auth validate_backends validate_backend validate_tenants has insert
    lookup
usable_valid = refl

usable-IsAbsolute : All (IsAbsolute parse_any) usable_config.backends
usable-IsAbsolute = (
  record {
    u = _;
    parses = refl;
    scheme = λ h. cc ((eq_iff "https" "").1 h);
    host = λ h. cc ((eq_iff "example.org" "").1 h);
  },
  tt,
)

new_complete_example : (r : Registry) × (new parse_any usable_config.backends ≡ ok r)
new_complete_example = new_complete parse_any usable_config usable_valid usable-IsAbsolute

resolve_tenant-served_example :
    resolve_tenant deployed "zeta" ≡ or_unknown "zeta" (served parse_any "zeta" configs)
resolve_tenant-served_example =
    resolve_tenant-served "zeta" parse_any configs deployed deployed_built
