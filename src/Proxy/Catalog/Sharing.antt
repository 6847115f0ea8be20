-- ===== src/Proxy/Catalog/Sharing.antt =====
-- internal/proxy/catalog.go: `NewCatalogs` gives every tenant a catalog, and tenants with one view
-- of a backend the same.
use mt_mcp_proxy.Base.{
  ℕ, zero, suc, ◌<◌, String, ◌≡◌, ◌≢◌, refl, sym, ◌∙◌, ap, subst, ◌⊎◌, inl, inr, ◌↔◌, true, Option,
  none, some, List, [], ◌∷◌, ◌++◌, ◌==◌, arith, eq_iff, eq_refl, length, get_elem?, In, Bool-cases,
}
use mt_mcp_proxy.Base.Dict.{Dict, lookup, insert, lookup-insert}
use mt_mcp_proxy.Base.Order.{less, less_irrefl}
use mt_mcp_proxy.Base.Sort.{IsSorted, In_of_All, sort_by, sort_by-IsSorted, In-sort_by}
use mt_mcp_proxy.Registry.{Registry, Tenant, tenants}
use mt_mcp_proxy.Registry.Build.{IsWellFormed}
use mt_mcp_proxy.Registry.Authorize.{values-IsDistinct}
use mt_mcp_proxy.Proxy.World.{Env, Catalogs, CatalogEntry}
use mt_mcp_proxy.Proxy.Catalog.{view_key, new_catalog, place, add_views, new_catalogs}

get_elem?-append :
    (xs ys : List CatalogEntry) (i : ℕ) (c : CatalogEntry)
    → get_elem? xs i ≡ some c
    → get_elem? (xs ++ ys) i ≡ some c
get_elem?-append [] ys i c h = cc
get_elem?-append (x ∷ xs) ys zero c h = h
get_elem?-append (x ∷ xs) ys (suc i) c h = get_elem?-append xs ys i c h

get_elem?-last :
    (xs : List CatalogEntry) (c : CatalogEntry) → get_elem? (xs ++ c ∷ []) (length xs) ≡ some c
get_elem?-last [] c = refl
get_elem?-last (x ∷ xs) c = get_elem?-last xs c

length-snoc : (xs : List CatalogEntry) (c : CatalogEntry) → length (xs ++ c ∷ []) ≡ suc (length xs)
length-snoc [] c = refl
length-snoc (x ∷ xs) c = ap suc (length-snoc xs c)

insert_cases :
    (key k : String) (n i : ℕ) (d : Dict ℕ)
    → lookup k (insert key n d) ≡ some i
    → ((key ≡ k) × (n ≡ i)) ⊎ (lookup k d ≡ some i)
insert_cases key k n i d e = ground (arith, lookup-insert key k n d, eq_iff key k)

module _ (env : Env) (ttl : ℕ) where
  abbrev with_new : Tenant → Catalogs → Dict ℕ → Catalogs
  with_new t cs m = record { by_tenant = m; unique = cs.unique ++ new_catalog t ttl ∷ [] }

  -- The place `i` has a fresh catalog for a tenant with this view.
  record IsMade (cs : Catalogs) (key : String) (i : ℕ) : Type 0 where
    maker : Tenant
    view : view_key env maker ≡ key
    made : get_elem? cs.unique i ≡ some (new_catalog maker ttl)
    within : i < length cs.unique

  -- The index by view key says where the catalogs are; no two keys share a place.
  record IsIndexed (by_key : Dict ℕ) (cs : Catalogs) : Type 0 where
    at : (k : String) (i : ℕ) → lookup k by_key ≡ some i → IsMade cs k i
    apart : (j k : String) (i : ℕ) → lookup j by_key ≡ some i → lookup k by_key ≡ some i → j ≡ k

  -- The tenant's catalog is the one for its view.
  abbrev IsPlaced : Dict ℕ → Catalogs → Tenant → Type 0
  IsPlaced by_key cs t =
      (i : ℕ) × (lookup t.id cs.by_tenant ≡ some i) × (lookup (view_key env t) by_key ≡ some i)

  grown-IsMade :
      (cs : Catalogs) (c : CatalogEntry) (m : Dict ℕ) (k : String) (i : ℕ)
      → IsMade cs k i
      → IsMade (record { by_tenant = m; unique = cs.unique ++ c ∷ [] }) k i
  grown-IsMade cs c m k i x = record {
    maker = x.maker;
    view = x.view;
    made = get_elem?-append cs.unique (c ∷ []) i _ x.made;
    within = ground (arith, x.within, length-snoc cs.unique c);
  }

  last-IsMade :
      (t : Tenant) (cs : Catalogs) (m : Dict ℕ)
      → IsMade
          (record { by_tenant = m; unique = cs.unique ++ new_catalog t ttl ∷ [] })
          (view_key env t)
          (length cs.unique)
  last-IsMade t cs m = record {
    maker = t;
    view = refl;
    made = get_elem?-last cs.unique (new_catalog t ttl);
    within = ground (arith, length-snoc cs.unique (new_catalog t ttl));
  }

  -- A new key takes a new place.
  added-IsIndexed :
      (t : Tenant) (by_key : Dict ℕ) (cs : Catalogs) (m : Dict ℕ)
      → IsIndexed by_key cs
      → IsIndexed
          (insert (view_key env t) (length cs.unique) by_key)
          (record { by_tenant = m; unique = cs.unique ++ new_catalog t ttl ∷ [] })
  added-IsIndexed t by_key cs m x = record {
    at = λ k i e. elim (insert_cases (view_key env t) k (length cs.unique) i by_key e) [
      | inl (p, q) ↦
          subst (λ l. IsMade (with_new t cs m) l i) p
            (subst (IsMade (with_new t cs m) (view_key env t)) q (last-IsMade t cs m))
      | inr f ↦ grown-IsMade cs (new_catalog t ttl) m k i (x.at k i f)
    ];
    apart = λ j k i e f. elim (insert_cases (view_key env t) j (length cs.unique) i by_key e) [
      | inl (p, q) ↦ elim (insert_cases (view_key env t) k (length cs.unique) i by_key f) [
        | inl (p', q') ↦ sym p ∙ p'
        | inr f' ↦ absurd (too_far i q (x.at k i f').within)
      ]
      | inr e' ↦ elim (insert_cases (view_key env t) k (length cs.unique) i by_key f) [
        | inl (p', q') ↦ absurd (too_far i q' (x.at j i e').within)
        | inr f' ↦ x.apart j k i e' f'
      ]
    ];
  }
    where
      too_far : (i : ℕ) → length cs.unique ≡ i → i < length cs.unique → ⊥
      too_far i q l = omega arith

  -- What one round of the loop leaves.
  record Round (t : Tenant) (by_key : Dict ℕ) (cs : Catalogs) (by_key' : Dict ℕ) (cs' : Catalogs)
      : Type 0 where
    indexed : IsIndexed by_key' cs'
    kept : (k : String) (i : ℕ) → lookup k by_key ≡ some i → lookup k by_key' ≡ some i
    placed : IsPlaced by_key' cs' t
    others : (id : String) → t.id ≢ id → lookup id cs'.by_tenant ≡ lookup id cs.by_tenant

  place-Round :
      (t : Tenant) (o : Option ℕ) (by_key : Dict ℕ) (cs : Catalogs)
      → lookup (view_key env t) by_key ≡ o
      → IsIndexed by_key cs
      → Round t by_key cs
          (place t ttl (view_key env t) o by_key cs).0
          (place t ttl (view_key env t) o by_key cs).1
  place-Round t (some i) by_key cs e x = record {
    indexed = record {
      at = λ k j f.
          let y = x.at k j f in
          record { maker = y.maker; view = y.view; made = y.made; within = y.within };
      apart = x.apart;
    };
    kept = λ k j f. f;
    placed = (i, lookup-insert t.id t.id i cs.by_tenant ∙ rw (eq_refl t.id) refl, e);
    others = λ id n. lookup-insert t.id id i cs.by_tenant ∙ ground (arith, eq_iff t.id id, n);
  }
  place-Round t none by_key cs e x = record {
    indexed = added-IsIndexed t by_key cs _ x;
    kept = λ k j f.
        lookup-insert (view_key env t) k (length cs.unique) by_key
        ∙ elim (Bool-cases (view_key env t == k)) [
          | inl q ↦ cc (subst (λ l. lookup l by_key ≡ none) ((eq_iff (view_key env t) k).0 q) e, f)
          | inr q ↦ rw q f
        ];
    placed = (
      length cs.unique,
      lookup-insert t.id t.id (length cs.unique) cs.by_tenant ∙ rw (eq_refl t.id) refl,
      lookup-insert (view_key env t) (view_key env t) (length cs.unique) by_key
          ∙ rw (eq_refl (view_key env t)) refl,
    );
    others = λ id n.
        lookup-insert t.id id (length cs.unique) cs.by_tenant ∙ ground (arith, eq_iff t.id id, n);
  }

  -- What the loop leaves.
  record Loop (ts : List Tenant) (by_key : Dict ℕ) (cs cs' : Catalogs) : Type 0 where
    final : Dict ℕ
    indexed : IsIndexed final cs'
    kept : (k : String) (i : ℕ) → lookup k by_key ≡ some i → lookup k final ≡ some i
    placed : (t : Tenant) → In t ts → IsPlaced final cs' t
    others :
        (id : String)
        → ((u : Tenant) → In u ts → u.id ≢ id)
        → lookup id cs'.by_tenant ≡ lookup id cs.by_tenant

  add_views-Loop :
      (ts : List Tenant) (by_key : Dict ℕ) (cs : Catalogs)
      → IsSorted (λ t. t.id) ts
      → IsIndexed by_key cs
      → Loop ts by_key cs (add_views env ttl ts by_key cs)
  unfolding add_views
  add_views-Loop [] by_key cs s x = record {
    final = by_key;
    indexed = x;
    kept = λ k i e. e;
    placed = λ t i. elim i [ ];
    others = λ id n. refl;
  }
  add_views-Loop (t ∷ ts) by_key cs (below, s) x =
      let r = place-Round t (lookup (view_key env t) by_key) by_key cs refl x in
      let l = add_views-Loop ts _ _ s r.indexed in
      record {
        final = l.final;
        indexed = l.indexed;
        kept = λ k i e. l.kept k i (r.kept k i e);
        placed = λ u i. elim i [
          | inl same ↦ subst (IsPlaced l.final (add_views env ttl (t ∷ ts) by_key cs)) same (
            r.placed.0,
            l.others t.id (λ v j e. above v j e) ∙ r.placed.1,
            l.kept (view_key env t) r.placed.0 r.placed.2,
          )
          | inr j ↦ l.placed u j
        ];
        others = λ id n. l.others id (λ u j. n u (inr j)) ∙ r.others id (n t (inl refl));
      }
    where
      above : (v : Tenant) → In v ts → v.id ≢ t.id
      above v j e = cc (
        less_irrefl t.id,
        subst (λ k. less t.id k ≡ true) e (In_of_All (λ y. less t.id y.id ≡ true) ts below v j),
      )

  nothing-IsIndexed : IsIndexed [] (record { by_tenant = []; unique = [] })
  unfolding lookup
  nothing-IsIndexed = record { at = λ k i e. cc; apart = λ j k i e f. cc }

  -- The loop of `NewCatalogs` from the start, over all tenants.
  all_views :
      (reg : Registry)
      → IsWellFormed reg.by_tenant
      → Loop
          (sort_by (λ t. t.id) (tenants reg))
          []
          (record { by_tenant = []; unique = [] })
          (new_catalogs env reg ttl)
  unfolding new_catalogs tenants
  all_views reg w =
      add_views-Loop (sort_by (λ t. t.id) (tenants reg)) [] (record { by_tenant = []; unique = [] })
        (sort_by-IsSorted (λ t. t.id) (tenants reg) (values-IsDistinct reg.by_tenant w.nodup w.own))
        nothing-IsIndexed

  -- In a well-formed registry, `NewCatalogs` gives each tenant a place where a catalog lies that
  -- was made for a tenant with the same view key, with nothing cached; and two tenants have one
  -- place exactly when their view keys are equal.
  pub new_catalogs_lem :
      (reg : Registry) (t u : Tenant)
      → IsWellFormed reg.by_tenant
      → In t (tenants reg)
      → In u (tenants reg)
      → ((i : ℕ) × (maker : Tenant) × (lookup t.id (new_catalogs env reg ttl).by_tenant ≡ some i)
          × (get_elem? (new_catalogs env reg ttl).unique i ≡ some (new_catalog maker ttl))
          × (view_key env maker ≡ view_key env t))
        × ((lookup t.id (new_catalogs env reg ttl).by_tenant
              ≡ lookup u.id (new_catalogs env reg ttl).by_tenant)
            ↔ (view_key env t ≡ view_key env u))
  new_catalogs_lem reg t u w it iu =
      let l = all_views reg w in
      let (i, at_t, key_t) = l.placed t ((In-sort_by (λ x. x.id) t (tenants reg)).1 it) in
      let (j, at_u, key_u) = l.placed u ((In-sort_by (λ x. x.id) u (tenants reg)).1 iu) in
      let made = l.indexed.at (view_key env t) i key_t in
      (
        (i, made.maker, at_t, made.made, made.view),
        (
          (λ e.
              let same : j ≡ i = cc (at_t, at_u, e) in
              l.indexed.apart (view_key env t) (view_key env u) i key_t
                (subst (λ n. lookup (view_key env u) l.final ≡ some n) same key_u)),
          (λ e. cc (at_t, at_u, key_t, subst (λ k. lookup k l.final ≡ some j) (sym e) key_u)),
        ),
      )
