-- ===== src/Registry/UrlErrors.antt =====
-- Why `New` fails on a usable configuration: a URL.
use mt_mcp_proxy.Base.{
  String, ◌≡◌, refl, subst, ◌⊎◌, inl, inr, Option, List, [], ◌∷◌, ◌++◌, arith, ok, err,
  Result-cases,
}
use mt_mcp_proxy.Config.{BackendConfig, Config}
use mt_mcp_proxy.Config.Validate.{validate}
use mt_mcp_proxy.Config.Validate.Usable.{AreNew, AreNew-concat, push, ids, all_ids}
use mt_mcp_proxy.Config.Validate.Tenants.{Tracks, Tracks-empty}
use mt_mcp_proxy.Config.Validate.Laws.{validate_iff}
use mt_mcp_proxy.Registry.Build.{add_backends-Serves}
use mt_mcp_proxy.Registry.Complete.{add_tenants_complete, add_backends-go, not_empty}
use mt_mcp_proxy.Registry.{
  Error, invalid_url, not_absolute, Url, Registry, empty, new_backend, backend_url, add_backends,
  new,
}

abbrev pub IsUrlError : Error → Type 0
IsUrlError (invalid_url name) = Unit
IsUrlError (not_absolute name) = Unit
IsUrlError e = ⊥

module _ (parse_url : String → Option Url) where
  backend_url-IsUrlError :
      (bc : BackendConfig) (e : Error) → backend_url parse_url bc ≡ err e → IsUrlError e
  unfolding backend_url
  backend_url-IsUrlError bc e h = ground arith

  add_backends-refused :
      (bc : BackendConfig) (bcs : List BackendConfig) (r : Registry) {e : Error}
      → backend_url parse_url bc ≡ err e
      → add_backends parse_url (bc ∷ bcs) r ≡ err e
  unfolding add_backends
  add_backends-refused bc bcs r h = rw h refl

  abbrev Ends : List BackendConfig → Registry → Type 0
  Ends bcs r =
      ((r' : Registry) × (add_backends parse_url bcs r ≡ ok r'))
      ⊎ ((e : Error) × (add_backends parse_url bcs r ≡ err e) × IsUrlError e)

  add_backends-Ends :
      (bcs : List BackendConfig) (r : Registry) (seen : List String)
      → Tracks r.by_tenant seen
      → AreNew seen (all_ids bcs)
      → Ends bcs r
  add_backends-Ends [] r seen t fresh = inl (r, unfold add_backends in refl)
  add_backends-Ends (bc ∷ bcs) r seen t fresh = elim (Result-cases (backend_url parse_url bc)) [
    | inl (e, h) ↦ inr (e, add_backends-refused bc bcs r h, backend_url-IsUrlError bc e h)
    | inr (u, h) ↦
        let (fresh, later) = (AreNew-concat seen (ids bc.tenants) (all_ids bcs)).0 fresh in
        let (m, added, tracks) =
          add_tenants_complete (new_backend bc u) bc.tenants r.by_tenant seen t fresh in
        let r' : Registry = record {
          by_tenant = m;
          backends = r.backends ++ new_backend bc u ∷ [];
        } in
        elim (add_backends-Ends bcs r' (push (ids bc.tenants) seen) tracks later) [
          | inl (result, runs) ↦ inl (result, add_backends-go parse_url bc bcs r u m h added runs)
          | inr (e, fails, why) ↦ inr (e, add_backends-go parse_url bc bcs r u m h added fails, why)
        ]
  ]

  -- If `Validate` accepts a configuration and `New` fails on its backends, the error is about a URL
  -- that does not parse or is not absolute.
  pub new-IsUrlError :
      (c : Config) (e : Error)
      → validate c ≡ ok tt
      → new parse_url c.backends ≡ err e
      → IsUrlError e
  unfolding new
  new-IsUrlError c e valid h =
      let usable = (validate_iff c).0 valid in
      elim (add_backends-Ends c.backends empty [] (Tracks-empty _) usable.distinct_ids) [
        | inl (r, runs) ↦
            let served = add_backends-Serves parse_url c.backends empty r runs in
            absurd (
              cc (
                rw (runs, not_empty parse_url c.backends r served usable.each usable.some_backend)
                  at h))
        | inr (e', fails, why) ↦ subst IsUrlError (cc (rw fails at h)) why
      ]
