-- ===== src/Proxy/Catalog/Coherence.antt =====
-- internal/proxy/catalog.go: what `get` returns is what `cached` finds afterwards.
use mt_mcp_proxy.Base.{
  ℕ, zero, suc, String, ◌≡◌, refl, ◌∙◌, ap, inl, inr, Option, some, List, [], ◌∷◌, Result, ok, err,
  get_elem?, set, Bool-cases, Option-cases,
}
use mt_mcp_proxy.Base.Dict.{lookup}
use mt_mcp_proxy.Proxy.Mcp.{RawTool}
use mt_mcp_proxy.Proxy.World.{Env, World, CatalogEntry}
use mt_mcp_proxy.Proxy.Client.{ClientError}
use mt_mcp_proxy.Proxy.Catalog.{
  fetch, refreshed, is_fresh, get_entry, get, cached_tool, find_cached, tools_at,
}
use mt_mcp_proxy.Proxy.Catalog.Fresh.{fetch-Steady}

get_elem?-set :
    (xs : List CatalogEntry) (i : ℕ) (c d : CatalogEntry)
    → get_elem? xs i ≡ some c
    → get_elem? (set xs i d) i ≡ some d
get_elem?-set [] i c d h = cc
get_elem?-set (x ∷ xs) zero c d h = refl
get_elem?-set (x ∷ xs) (suc i) c d h = get_elem?-set xs i c d h

module _ (env : Env) where
  -- The catalog at the place has these tools, if any.
  abbrev Shows : ℕ → Option (List RawTool) → World → Type 0
  Shows i ts w = (c : CatalogEntry) × (get_elem? w.catalogs.unique i ≡ some c) × (c.tools ≡ ts)

  refreshed-Shows :
      (i : ℕ) (c : CatalogEntry) (r : Result ClientError (Option (List RawTool))) (w : World)
      (ts : Option (List RawTool))
      → get_elem? w.catalogs.unique i ≡ some c
      → (refreshed i c r w).0 ≡ ok ts
      → Shows i ts (refreshed i c r w).1
  refreshed-Shows i c (ok us) w ts entry h =
      (record c { tools = us; fetched_at = w.now }, get_elem?-set w.catalogs.unique i c _ entry, cc)
  refreshed-Shows i c (err e) w ts entry h = elim (Option-cases c.tools) [
    | inl q ↦ cc (rw (q, refreshed) at h)
    | inr (us, q) ↦ rw (q, refreshed) (c, entry, q ∙ cc (rw (q, refreshed) at h))
  ]

  get_entry-Shows :
      (i : ℕ) (c : CatalogEntry) (w : World) (ts : Option (List RawTool))
      → get_elem? w.catalogs.unique i ≡ some c
      → (get_entry env i c w).0 ≡ ok ts
      → Shows i ts (get_entry env i c w).1
  unfolding get_entry
  get_entry-Shows i c w ts entry h = elim (Bool-cases (is_fresh w.now c)) [
    | inl e ↦ rw e (c, entry, cc (rw e at h))
    | inr e ↦ rw e (
        refreshed-Shows i c (fetch env c w).0 (fetch env c w).1 ts
          (ap (λ cs. get_elem? cs.unique i) (fetch-Steady env c w).catalogs ∙ entry) (rw e at h))
  ]

  refreshed-by_tenant :
      (i : ℕ) (c : CatalogEntry) (r : Result ClientError (Option (List RawTool))) (w : World)
      → (refreshed i c r w).1.catalogs.by_tenant ≡ w.catalogs.by_tenant
  refreshed-by_tenant i c (ok us) w = refl
  refreshed-by_tenant i c (err e) w = elim (Option-cases c.tools) [
    | inl q ↦ rw (q, refreshed) refl
    | inr (us, q) ↦ rw (q, refreshed) refl
  ]

  get_entry-by_tenant :
      (i : ℕ) (c : CatalogEntry) (w : World)
      → (get_entry env i c w).1.catalogs.by_tenant ≡ w.catalogs.by_tenant
  unfolding get_entry
  get_entry-by_tenant i c w = elim (Bool-cases (is_fresh w.now c)) [
    | inl e ↦ rw e refl
    | inr e ↦ rw e (
        refreshed-by_tenant i c (fetch env c w).0 (fetch env c w).1
        ∙ ap (λ cs. cs.by_tenant) (fetch-Steady env c w).catalogs)
  ]

  get-Shows :
      (i : ℕ) (w : World) (ts : Option (List RawTool))
      → (get env i w).0 ≡ ok ts
      → Shows i ts (get env i w).1
  unfolding get
  get-Shows i w ts h = elim (Option-cases (get_elem? w.catalogs.unique i)) [
    | inl e ↦ cc (rw (e, get) at h)
    | inr (c, e) ↦ rw (e, get) (get_entry-Shows i c w ts e (rw (e, get) at h))
  ]

  get-by_tenant : (i : ℕ) (w : World) → (get env i w).1.catalogs.by_tenant ≡ w.catalogs.by_tenant
  unfolding get
  get-by_tenant i w = elim (Option-cases (get_elem? w.catalogs.unique i)) [
    | inl e ↦ rw (e, get) refl
    | inr (c, e) ↦ rw (e, get) (get_entry-by_tenant i c w)
  ]

  shown-cached_tool :
      (id name : String) (i : ℕ) (w w' : World) (ts : Option (List RawTool))
      → lookup id w.catalogs.by_tenant ≡ some i
      → w'.catalogs.by_tenant ≡ w.catalogs.by_tenant
      → Shows i ts w'
      → cached_tool w'.catalogs id name ≡ find_cached name ts
  unfolding cached_tool
  shown-cached_tool id name i w w' ts placed same (c, entry, tools) =
      ap (λ m. find_cached name (tools_at w'.catalogs (lookup id m))) same
      ∙ rw (placed, entry, tools_at) (ap (find_cached name) tools)

  -- If `get` returns a tool list from the place of a tenant, whether cached, fetched or stale,
  -- then `cachedTool` for that tenant finds afterwards, under any name, what that list has.
  pub get-cached_tool :
      (id name : String) (i : ℕ) (w : World) (ts : Option (List RawTool))
      → lookup id w.catalogs.by_tenant ≡ some i
      → (get env i w).0 ≡ ok ts
      → cached_tool (get env i w).1.catalogs id name ≡ find_cached name ts
  get-cached_tool id name i w ts placed h =
      shown-cached_tool id name i w (get env i w).1 ts placed (get-by_tenant i w)
        (get-Shows i w ts h)
