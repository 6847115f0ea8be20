-- ===== src/Proxy/Catalog/Fresh.antt =====
-- internal/proxy/catalog.go: a list that is younger than the time to live stays in its place, and is
-- served from there.
use mt_mcp_proxy.Base.{
  ℕ, zero, suc, ◌-◌, ◌≤◌, ◌<◌, String, ◌≡◌, ◌≢◌, refl, ◌∙◌, ap, inl, inr, true, Option, some, List,
  [], ◌∷◌, ◌==◌, arith, Result, ok, err, get_elem?, set, length, Bool-cases, Option-cases,
}
use mt_mcp_proxy.Base.Dict.{lookup}
use mt_mcp_proxy.Registry.{Tenant, stateless}
use mt_mcp_proxy.Proxy.Mcp.{RawTool}
use mt_mcp_proxy.Proxy.World.{Env, World, CatalogEntry}
use mt_mcp_proxy.Proxy.Client.{ClientError, initialize}
use mt_mcp_proxy.Proxy.Client.Steady.{
  Steady, Steady-refl, Steady-trans, initialize-Steady, notify_initialized-Steady,
  list_tools-Steady,
}
use mt_mcp_proxy.Proxy.Catalog.{
  default_init_params, fetch, finish_fetch, refreshed, is_fresh, get_entry, get, collect, tools_for,
  warm_from, warm,
}

-- While the list of `c` is fresh, `c` is at the place.
pub record Keeps (i : ℕ) (c : CatalogEntry) (w : World) : Type 0 where
  pub placed : is_fresh w.now c ≡ true → get_elem? w.catalogs.unique i ≡ some c

is_fresh-earlier :
    (c : CatalogEntry) (now later : ℕ)
    → now ≤ later
    → is_fresh later c ≡ true
    → is_fresh now c ≡ true
unfolding is_fresh
is_fresh-earlier c now later le h = elim (Option-cases c.tools) [
  | inl e ↦ ground (arith, e)
  | inr (ts, e) ↦ ground (arith, e)
]

young-fresh :
    (c : CatalogEntry) (now : ℕ) (ts : List RawTool)
    → c.tools ≡ some ts
    → now - c.fetched_at < c.ttl
    → is_fresh now c ≡ true
unfolding is_fresh
young-fresh c now ts tools young = ground (arith, tools)

pub Steady-Keeps :
    (i : ℕ) (c : CatalogEntry) {w w' : World} → Steady w w' → Keeps i c w → Keeps i c w'
Steady-Keeps i c {w} {w'} s k = record {
  placed = λ fresh.
      ap (λ cs. get_elem? cs.unique i) s.catalogs
      ∙ k.placed (is_fresh-earlier c w.now w'.now s.later fresh);
}

get_elem?-set-ne :
    {A : Type 0} (xs : List A) (i j : ℕ) (x : A) → i ≢ j → get_elem? (set xs j x) i ≡ get_elem? xs i
get_elem?-set-ne [] i j x ne = refl
get_elem?-set-ne (y ∷ xs) zero zero x ne = absurd (ne refl)
get_elem?-set-ne (y ∷ xs) zero (suc j) x ne = refl
get_elem?-set-ne (y ∷ xs) (suc i) zero x ne = refl
get_elem?-set-ne (y ∷ xs) (suc i) (suc j) x ne = get_elem?-set-ne xs i j x (λ e. ne (ap suc e))

module _ (env : Env) where
  finish_fetch-Steady :
      (c : CatalogEntry) (r : Result ClientError String) (w : World)
      → Steady w (finish_fetch env c r w).1
  finish_fetch-Steady c (err e) w = Steady-refl w
  finish_fetch-Steady c (ok sid) w = elim (Bool-cases (sid == "")) [
    | inl e ↦ rw e (list_tools-Steady env c.backend sid c.cred c.headers w)
    | inr e ↦ rw e (
        Steady-trans (notify_initialized-Steady env c.backend sid c.cred w)
          (list_tools-Steady env c.backend sid c.cred c.headers _))
  ]

  pub fetch-Steady : (c : CatalogEntry) (w : World) → Steady w (fetch env c w).1
  fetch-Steady c w = elim (Bool-cases (stateless c.backend)) [
    | inl e ↦ unfold fetch in rw e (list_tools-Steady env c.backend "" c.cred c.headers w)
    | inr e ↦
        unfold fetch in
        rw e (
          Steady-trans (initialize-Steady env c.backend default_init_params c.cred w)
            (finish_fetch-Steady c (initialize env c.backend default_init_params c.cred w).0 _))
  ]

  module _ (i : ℕ) (c : CatalogEntry) where
    -- A stale list is replaced at its own place only, and `c` is not stale while it is fresh.
    refreshed-Keeps :
        (j : ℕ) (d : CatalogEntry) (r : Result ClientError (Option (List RawTool))) (w : World)
        → (is_fresh w.now c ≡ true → i ≢ j)
        → Keeps i c w
        → Keeps i c (refreshed j d r w).1
    refreshed-Keeps j d (ok ts) w apart k = record {
      placed = λ fresh. get_elem?-set-ne w.catalogs.unique i j _ (apart fresh) ∙ k.placed fresh;
    }
    refreshed-Keeps j d (err e) w apart k = elim (Option-cases d.tools) [
      | inl q ↦ rw (q, refreshed) k
      | inr (ts, q) ↦ rw (q, refreshed) k
    ]

    get_entry-Keeps :
        (j : ℕ) (d : CatalogEntry) (w : World)
        → get_elem? w.catalogs.unique j ≡ some d
        → Keeps i c w
        → Keeps i c (get_entry env j d w).1
    get_entry-Keeps j d w at_j k = elim (Bool-cases (is_fresh w.now d)) [
      | inl e ↦ unfold get_entry in rw e k
      | inr e ↦
          let fetched = fetch-Steady d w in
          let apart : is_fresh (fetch env d w).1.now c ≡ true → i ≢ j = λ fresh same.
            let before = is_fresh-earlier c w.now (fetch env d w).1.now fetched.later fresh in
            let at_i = k.placed before in
            let at_j' = ap (get_elem? w.catalogs.unique) same ∙ at_j in
            cc (at_i, at_j', before, e) in
          unfold get_entry in
          rw e (
            refreshed-Keeps j d (fetch env d w).0 (fetch env d w).1 apart
              (Steady-Keeps i c fetched k))
    ]

    pub get-Keeps : (j : ℕ) (w : World) → Keeps i c w → Keeps i c (get env j w).1
    get-Keeps j w k = elim (Option-cases (get_elem? w.catalogs.unique j)) [
      | inl e ↦ unfold get in rw (e, get) k
      | inr (d, e) ↦ unfold get in rw (e, get) (get_entry-Keeps j d w e k)
    ]

    collect-Keeps : (ts : List Tenant) (w : World) → Keeps i c w → Keeps i c (collect env ts w).1
    unfolding collect
    collect-Keeps [] w k = k
    collect-Keeps (t ∷ ts) w k = elim (Option-cases (lookup t.id w.catalogs.by_tenant)) [
      | inl e ↦ rw (e, collect) (collect-Keeps ts w k)
      | inr (j, e) ↦ rw (e, collect) (collect-Keeps ts (get env j w).1 (get-Keeps j w k))
    ]

    pub tools_for-Keeps :
        (ts : List Tenant) (w : World) → Keeps i c w → Keeps i c (tools_for env ts w).1
    unfolding tools_for
    tools_for-Keeps ts w k = collect-Keeps ts w k

    warm_from-Keeps : (j n : ℕ) (w : World) → Keeps i c w → Keeps i c (warm_from env j n w).1
    unfolding warm_from
    warm_from-Keeps j zero w k = k
    warm_from-Keeps j (suc n) w k = warm_from-Keeps (suc j) n (get env j w).1 (get-Keeps j w k)

    pub warm-Keeps : (w : World) → Keeps i c w → Keeps i c (warm env w).1
    unfolding warm
    warm-Keeps w k = warm_from-Keeps 0 (length w.catalogs.unique) w k

    -- A list at its place that is younger than the time to live is served, and nothing is sent.
    pub get-fresh :
        (w : World) (ts : List RawTool)
        → Keeps i c w
        → c.tools ≡ some ts
        → w.now - c.fetched_at < c.ttl
        → get env i w ≡ (ok (some ts), w)
    unfolding get get_entry
    get-fresh w ts k tools young =
        let fresh = young-fresh c w.now ts tools young in
        rw (k.placed fresh, get) (rw fresh (rw tools refl))
