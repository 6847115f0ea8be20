-- ===== src/Proxy/Catalog/Cache.antt =====
-- Fetching a catalog leaves the sessions alone; what `get` serves.
use mt_mcp_proxy.Base.{
  ℕ, String, inl, inr, Option, List, [], ◌∷◌, ◌==◌, Result, ok, err, get_elem?, Bool-cases,
  Option-cases,
}
use mt_mcp_proxy.Base.Dict.{lookup}
use mt_mcp_proxy.Registry.{Tenant, stateless}
use mt_mcp_proxy.Proxy.Mcp.{RawTool}
use mt_mcp_proxy.Proxy.World.{Env, World, CatalogEntry}
use mt_mcp_proxy.Proxy.Client.{ClientError, initialize}
use mt_mcp_proxy.Proxy.Client.Quiet.{
  Quiet, Quiet-refl, Quiet-catalogs, Quiet-trans, initialize-Quiet, notify_initialized-Quiet,
  list_tools-Quiet,
}
use mt_mcp_proxy.Proxy.Catalog.{
  default_init_params, fetch, finish_fetch, refreshed, is_fresh, get_entry, get, collect, tools_for,
}

module _ (env : Env) where
  finish_fetch-Quiet :
      (c : CatalogEntry) (r : Result ClientError String) (w : World)
      → Quiet w (finish_fetch env c r w).1
  finish_fetch-Quiet c (err e) w = Quiet-refl w
  finish_fetch-Quiet c (ok sid) w = elim (Bool-cases (sid == "")) [
    | inl e ↦ rw e (list_tools-Quiet env c.backend sid c.cred c.headers w)
    | inr e ↦ rw e (
        Quiet-trans (notify_initialized-Quiet env c.backend sid c.cred w)
          (list_tools-Quiet env c.backend sid c.cred c.headers _))
  ]

  fetch-Quiet : (c : CatalogEntry) (w : World) → Quiet w (fetch env c w).1
  fetch-Quiet c w = elim (Bool-cases (stateless c.backend)) [
    | inl e ↦ unfold fetch in rw e (list_tools-Quiet env c.backend "" c.cred c.headers w)
    | inr e ↦
        unfold fetch in
        rw e (
          Quiet-trans (initialize-Quiet env c.backend default_init_params c.cred w)
            (finish_fetch-Quiet c (initialize env c.backend default_init_params c.cred w).0 _))
  ]

  refreshed-Quiet :
      (i : ℕ) (c : CatalogEntry) (r : Result ClientError (Option (List RawTool))) (w : World)
      → Quiet w (refreshed i c r w).1
  refreshed-Quiet i c (ok ts) w = Quiet-catalogs w _
  refreshed-Quiet i c (err e) w = elim (Option-cases c.tools) [
    | inl q ↦ rw (q, refreshed) (Quiet-refl w)
    | inr (ts, q) ↦ rw (q, refreshed) (Quiet-refl w)
  ]

  get_entry-Quiet : (i : ℕ) (c : CatalogEntry) (w : World) → Quiet w (get_entry env i c w).1
  get_entry-Quiet i c w = elim (Bool-cases (is_fresh w.now c)) [
    | inl e ↦ unfold get_entry in rw e (Quiet-refl w)
    | inr e ↦
        unfold get_entry in
        rw e (Quiet-trans (fetch-Quiet c w) (refreshed-Quiet i c (fetch env c w).0 _))
  ]

  pub get-Quiet : (i : ℕ) (w : World) → Quiet w (get env i w).1
  get-Quiet i w = elim (Option-cases (get_elem? w.catalogs.unique i)) [
    | inl e ↦ unfold get in rw (e, get) (Quiet-refl w)
    | inr (c, e) ↦ unfold get in rw (e, get) (get_entry-Quiet i c w)
  ]

  collect-Quiet : (ts : List Tenant) (w : World) → Quiet w (collect env ts w).1
  unfolding collect
  collect-Quiet [] w = Quiet-refl w
  collect-Quiet (t ∷ ts) w = elim (Option-cases (lookup t.id w.catalogs.by_tenant)) [
    | inl e ↦ rw (e, collect) (collect-Quiet ts w)
    | inr (i, e) ↦ rw (e, collect) (Quiet-trans (get-Quiet i w) (collect-Quiet ts (get env i w).1))
  ]

  pub tools_for-Quiet : (ts : List Tenant) (w : World) → Quiet w (tools_for env ts w).1
  unfolding tools_for
  tools_for-Quiet ts w = collect-Quiet ts w
