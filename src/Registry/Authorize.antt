-- ===== src/Registry/Authorize.antt =====
-- `AuthorizedTenants` and `IsAuthorized`: who may select which tenant.
use mt_mcp_proxy.Base.{
  String, ◌≡◌, ◌≢◌, sym, ◌∙◌, inl, inr, ◌↔◌, Bool, true, none, some, List, [], ◌∷◌, ◌==◌, arith,
  eq_iff, All, In, any, keep, contains, subst, Bool-cases, ok,
}
use mt_mcp_proxy.Base.Dict.{Dict, lookup, values, IsNodup}
use mt_mcp_proxy.Base.Member.{In-keep, any-contains}
use mt_mcp_proxy.Base.Sort.{
  In-sort_by, IsSorted, IsDistinct, sort_by-IsSorted, IsSorted-unique, All-of_In, In_of_All,
}
use mt_mcp_proxy.Registry.{Tenant, Registry, is_authorized, authorized_tenants, resolve_tenant}
use mt_mcp_proxy.Registry.Build.{OwnKeys, IsWellFormed, own-lookup}

values-lookup :
    (m : Dict Tenant) (t : Tenant)
    → IsNodup m
    → OwnKeys m
    → In t (values m)
    → lookup t.id m ≡ some t
unfolding values lookup
values-lookup [] t n o i = elim i [ ]
values-lookup ((k, v) ∷ m) t (fresh, n) (e, o) (inl p) = ground (arith, eq_iff k t.id)
values-lookup ((k, v) ∷ m) t (fresh, n) (e, o) (inr i) =
    ground (arith, eq_iff k t.id, values-lookup m t n o i)

lookup-values : (m : Dict Tenant) (k : String) (t : Tenant) → lookup k m ≡ some t → In t (values m)
unfolding values lookup
lookup-values [] k t h = cc
lookup-values ((j, v) ∷ m) k t h = elim (Bool-cases (j == k)) [
  | inl e ↦ inl (ground arith)
  | inr e ↦ inr (lookup-values m k t (ground arith))
]

absent :
    (m : Dict Tenant) (k : String) → OwnKeys m → lookup k m ≡ none → All (λ t. k ≢ t.id) (values m)
unfolding values lookup
absent [] k o h = tt
absent ((j, v) ∷ m) k (e, o) h = (ground (arith, eq_iff j k), absent m k o (ground arith))

pub values-IsDistinct :
    (m : Dict Tenant) → IsNodup m → OwnKeys m → IsDistinct (λ t. t.id) (values m)
unfolding values
values-IsDistinct [] n o = tt
values-IsDistinct ((k, v) ∷ m) (fresh, n) (e, o) = (
  subst (λ w. All (λ t. w ≢ t.id) (values m)) (sym e) (absent m k o fresh),
  values-IsDistinct m n o,
)

keep-IsDistinct :
    (p : Tenant → Bool) (xs : List Tenant)
    → IsDistinct (λ t. t.id) xs
    → IsDistinct (λ t. t.id) (keep p xs)
keep-IsDistinct p [] h = tt
keep-IsDistinct p (x ∷ xs) (n, h) = elim (Bool-cases (p x)) [
  | inl e ↦ rw e (
    All-of_In (λ y. x.id ≢ y.id) (keep p xs)
        (λ y i. In_of_All (λ y. x.id ≢ y.id) xs n y ((In-keep p xs y).0 i).0),
    keep-IsDistinct p xs h,
  )
  | inr e ↦ rw e (keep-IsDistinct p xs h)
]

-- `IsAuthorized` holds exactly when the tenant and the caller have a group in common.
is_authorized_iff :
    (t : Tenant) (groups : List String)
    → (is_authorized t groups ≡ true) ↔ ((g : String) × In g t.groups × In g groups)
unfolding is_authorized
is_authorized_iff t groups = any-contains groups t.groups

-- In a well-formed registry a tenant stands in `AuthorizedTenants` exactly when its id resolves to
-- it and `IsAuthorized` lets the caller's groups select it.
pub In-authorized_tenants :
    (r : Registry) (groups : List String) (t : Tenant)
    → IsWellFormed r.by_tenant
    → In t (authorized_tenants r groups)
      ↔ ((resolve_tenant r t.id ≡ ok t) × (is_authorized t groups ≡ true))
unfolding authorized_tenants is_authorized resolve_tenant
In-authorized_tenants r groups t w = (
  (λ h.
      let (i, b) = (In-keep (λ t. any (contains groups) t.groups) (values r.by_tenant) t).0 (
        (In-sort_by (λ t. t.id) t
            (keep (λ t. any (contains groups) t.groups) (values r.by_tenant))).0
          h) in
      let e = values-lookup r.by_tenant t w.nodup w.own i in (rw (e, resolve_tenant), b)),
  (λ h.
      (In-sort_by (λ t. t.id) t (keep (λ t. any (contains groups) t.groups) (values r.by_tenant))).1
        ((In-keep (λ t. any (contains groups) t.groups) (values r.by_tenant) t).1
          (lookup-values r.by_tenant t.id t (ground arith), h.1))),
)

-- In a well-formed registry `AuthorizedTenants` is strictly sorted by tenant id.
pub authorized_tenants-IsSorted :
    (r : Registry) (groups : List String)
    → IsWellFormed r.by_tenant
    → IsSorted (λ t. t.id) (authorized_tenants r groups)
unfolding authorized_tenants
authorized_tenants-IsSorted r groups w =
    sort_by-IsSorted (λ t. t.id) (keep (λ t. any (contains groups) t.groups) (values r.by_tenant))
      (keep-IsDistinct (λ t. any (contains groups) t.groups) (values r.by_tenant)
        (values-IsDistinct r.by_tenant w.nodup w.own))

-- The order in which Go ranges over the index does not show: two well-formed registries that
-- resolve every id alike have the same `AuthorizedTenants` for every caller.
pub authorized_tenants_order :
    (r q : Registry) (groups : List String)
    → IsWellFormed r.by_tenant
    → IsWellFormed q.by_tenant
    → ((id : String) → resolve_tenant r id ≡ resolve_tenant q id)
    → authorized_tenants r groups ≡ authorized_tenants q groups
authorized_tenants_order r q groups w v same =
    IsSorted-unique (λ t. t.id) (authorized_tenants r groups) (authorized_tenants q groups)
      (authorized_tenants-IsSorted r groups w) (authorized_tenants-IsSorted q groups v)
      (λ t. (
        (λ i.
            let (e, b) = (In-authorized_tenants r groups t w).0 i in
            (In-authorized_tenants q groups t v).1 (sym (same t.id) ∙ e, b)),
        (λ i.
            let (e, b) = (In-authorized_tenants q groups t v).0 i in
            (In-authorized_tenants r groups t w).1 (same t.id ∙ e, b)),
      ))

-- In a well-formed registry what an id resolves to has that id.
pub own-resolve_tenant :
    (r : Registry) (id : String) (t : Tenant)
    → IsWellFormed r.by_tenant
    → resolve_tenant r id ≡ ok t
    → t.id ≡ id
unfolding resolve_tenant
own-resolve_tenant r id t w h = own-lookup r.by_tenant id t w.own (ground arith)
