-- ===== src/Proxy/Select/Laws.antt =====
-- Which tenant `selectTenant` picks.
use mt_mcp_proxy.Base.{
  String, ◌≡◌, ◌≢◌, refl, sym, ◌∙◌, subst, inl, inr, ◌⊎◌, ◌↔◌, Bool, true, Option, List, [], ◌∷◌,
  ◌==◌, arith, eq_iff, ok, keep, In, Bool-cases, Result-cases,
}
use mt_mcp_proxy.Base.Member.{In-keep}
use mt_mcp_proxy.Base.Sort.{IsSorted, IsSorted-unique, keep-IsSorted}
use mt_mcp_proxy.Json.{Json}
use mt_mcp_proxy.Registry.{Registry, Tenant, resolve_tenant, authorized_tenants}
use mt_mcp_proxy.Registry.Build.{IsWellFormed}
use mt_mcp_proxy.Registry.Authorize.{
  In-authorized_tenants, authorized_tenants-IsSorted, own-resolve_tenant,
}
use mt_mcp_proxy.Proxy.Schema.{extract_tenant_arg}
use mt_mcp_proxy.Proxy.World.{Env, Catalogs}
use mt_mcp_proxy.Proxy.Catalog.{cached_tool}
use mt_mcp_proxy.Proxy.Select.{
  may_have, unavailable, select_explicit, select_implicit, select_tenant, select_candidate,
}

-- The tenant's catalog has the tool, or was not fetched yet.
abbrev pub MayHave : Catalogs → String → Tenant → Type 0
MayHave cs tool t = may_have (cached_tool cs t.id tool) ≡ true

keep_single :
    (p : Tenant → Bool) (ts : List Tenant) (t : Tenant)
    → IsSorted (λ x. x.id) ts
    → (keep p ts ≡ t ∷ [])
      ↔ (In t ts × (p t ≡ true) × ((u : Tenant) → In u ts → p u ≡ true → u ≡ t))
keep_single p ts t s = (
  (λ e.
      let (i, b) = (In-keep p ts t).0 (subst (In t) (sym e) (inl refl)) in
      (
        i,
        b,
        λ u j c. elim (subst (In u) e ((In-keep p ts u).1 (j, c))) [
          | inl q ↦ sym q
          | inr bad ↦ elim bad [ ]
        ],
      )),
  (λ (i, b, only).
      IsSorted-unique (λ x. x.id) (keep p ts) (t ∷ []) (keep-IsSorted (λ x. x.id) p ts s) (tt, tt)
        (λ u. (
          (λ j. let (k, c) = (In-keep p ts u).0 j in inl (sym (only u k c))),
          (λ j. elim j [
            | inl q ↦ subst (λ v. In v (keep p ts)) q ((In-keep p ts t).1 (i, b))
            | inr bad ↦ elim bad [ ]
          ]),
        ))),
)

select_candidate_iff :
    (env : Env) (tool : String) (authorized ts : List Tenant) (t : Tenant)
    → (select_candidate env tool authorized ts ≡ ok t) ↔ (ts ≡ t ∷ [])
select_candidate_iff env tool authorized [] t = (λ h. cc, λ h. cc)
select_candidate_iff env tool authorized (x ∷ []) t = (λ h. cc, λ h. cc)
select_candidate_iff env tool authorized (x ∷ y ∷ ts) t = (λ h. cc, λ h. cc)

module _ (env : Env) (reg : Registry) (cs : Catalogs) (tool : String) (groups : List String) where
  explicit_iff :
      (explicit : String) (t : Tenant)
      → IsWellFormed reg.by_tenant
      → (select_explicit env reg cs tool explicit groups (authorized_tenants reg groups) ≡ ok t)
        ↔ ((t.id ≡ explicit) × In t (authorized_tenants reg groups) × MayHave cs tool t)
  unfolding select_explicit unavailable
  explicit_iff explicit t w = (
    (λ h. elim (Result-cases (resolve_tenant reg explicit)) [
      | inl (e, failed) ↦ cc (rw (failed, select_explicit) at h)
      | inr (u, found) ↦
          let same : u ≡ t = ground arith in
          let own : u.id ≡ explicit = own-resolve_tenant reg explicit u w found in
          subst (λ x. (x.id ≡ explicit) × In x (authorized_tenants reg groups) × MayHave cs tool x)
            same
            (
              own,
              (In-authorized_tenants reg groups u w).1
                  (subst (λ k. resolve_tenant reg k ≡ ok u) (sym own) found, ground arith),
              ground arith,
            )
    ]),
    (λ (own, i, m).
        let (found, allowed) = (In-authorized_tenants reg groups t w).0 i in
        rw (← own, found, select_explicit) (rw (allowed, m))),
  )

  implicit_iff :
      (ts : List Tenant) (t : Tenant)
      → IsSorted (λ x. x.id) ts
      → (select_implicit env cs tool ts ≡ ok t)
        ↔ (In t ts × MayHave cs tool t × ((u : Tenant) → In u ts → MayHave cs tool u → u ≡ t))
  unfolding select_implicit
  implicit_iff [] t s = (λ h. cc, λ h. elim h.0 [ ])
  implicit_iff (x ∷ []) t s = (
    (λ h.
        let same : x ≡ t = ground arith in
        (
          inl same,
          subst (MayHave cs tool) same (ground arith),
          λ u i m. elim i [ inl e ↦ sym e ∙ same | inr bad ↦ elim bad [ ] ],
        )),
    (λ (i, m, only). elim i [
      | inl e ↦ rw (subst (MayHave cs tool) (sym e) m, select_implicit) (rw e)
      | inr bad ↦ elim bad [ ]
    ]),
  )
  implicit_iff (x ∷ y ∷ ts) t s =
      let p = λ (u : Tenant). may_have (cached_tool cs u.id tool) in
      let (to, from) = keep_single p (x ∷ y ∷ ts) t s in
      let (out, back) = select_candidate_iff env tool (x ∷ y ∷ ts) (keep p (x ∷ y ∷ ts)) t in
      ((λ h. to (out h)), (λ h. back (from h)))

  -- Where the call names no tenant, `selectTenant` picks, among the caller's tenants, the only
  -- one that may have the tool; where it names one, it picks that one if it is among them and may
  -- have the tool. It picks no other. (The registry is well-formed, and `authorized` is what
  -- `AuthorizedTenants` returns.)
  pub select_tenant_iff :
      (args : Option Json) (t : Tenant)
      → IsWellFormed reg.by_tenant
      → (select_tenant env reg cs tool args groups (authorized_tenants reg groups) ≡ ok t) ↔ (
          In t (authorized_tenants reg groups)
          × MayHave cs tool t
          × (((extract_tenant_arg args ≢ "") × (extract_tenant_arg args ≡ t.id))
              ⊎ ((extract_tenant_arg args ≡ "")
                  × ((u : Tenant)
                      → In u (authorized_tenants reg groups)
                      → MayHave cs tool u
                      → u ≡ t))))
  unfolding select_tenant
  select_tenant_iff args t w =
      let explicit = extract_tenant_arg args in
      elim (Bool-cases (explicit == "")) [
        | inl e ↦
            let (to, from) =
              implicit_iff (authorized_tenants reg groups) t
                (authorized_tenants-IsSorted reg groups w) in
            rw (e, select_tenant)
              (
                (λ h. let (i, m, only) = to h in (i, m, inr ((eq_iff explicit "").0 e, only))),
                (λ (i, m, c). elim c [
                  | inl (n, q) ↦ absurd (n ((eq_iff explicit "").0 e))
                  | inr (q, only) ↦ from (i, m, only)
                ]),
              )
        | inr e ↦
            let (to, from) = explicit_iff explicit t w in
            let named : explicit ≢ "" = ground (arith, eq_iff explicit "") in
            rw (e, select_tenant)
              (
                (λ h. let (own, i, m) = to h in (i, m, inl (named, sym own))),
                (λ (i, m, c). elim c [
                  | inl (n, q) ↦ from (sym q, i, m)
                  | inr (q, only) ↦ absurd (named q)
                ]),
              )
      ]
