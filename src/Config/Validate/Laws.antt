-- ===== src/Config/Validate/Laws.antt =====
-- What `Validate` accepts: the configurations that are usable, and no others.
use mt_mcp_proxy.Base.{
  ℕ, ◌+◌, String, ◌≡◌, refl, ◌≢◌, ◌↔◌, ◌⊎◌, false, List, [], ◌∷◌, arith, eq_iff, ok, All, is_empty,
  >>=-eq-ok, fail_if-eq-ok,
}
use mt_mcp_proxy.Base.Member.{is_empty_iff}
use mt_mcp_proxy.Base.Dict.{Dict, insert, has}
use mt_mcp_proxy.Config.{
  AuthConfig, BackendConfig, Config, auth_mode_jwks, auth_mode_static, auth_mode_insecure,
  protocol_version_stateful, protocol_version_stateless,
}
use mt_mcp_proxy.Config.Validate.{
  validate_auth, validate_tenants, validate_backend, validate_backends, validate,
}
use mt_mcp_proxy.Config.Validate.Usable.{
  HasKeys, IsBackend, AreNew, names_of, ids, all_ids, IsUsable, modes_differ, push, AreNew-concat,
}
use mt_mcp_proxy.Config.Validate.Tenants.{
  Tracks, Tracks-insert, Tracks-empty, validate_tenants_sound, validate_tenants_complete,
}

pub validate_auth_iff : (a : AuthConfig) → (validate_auth a ≡ ok tt) ↔ HasKeys a
unfolding validate_auth
validate_auth_iff a = ground (
  arith,
  modes_differ,
  eq_iff a.mode auth_mode_jwks,
  eq_iff a.mode auth_mode_static,
  eq_iff a.mode auth_mode_insecure,
  eq_iff a.jwks_url "",
  eq_iff a.issuer "",
  eq_iff a.hmac_secret "",
  eq_iff a.public_key_pem_file "",
)

-- The guards of the outer loop, and the inner loop after them.
validate_backend_iff :
    (i : ℕ) (b : BackendConfig) (names : Dict (Unit {0})) (m m' : Dict String)
    → (validate_backend i b names m ≡ ok m') ↔ (
        (b.name ≢ "")
        × (has b.name names ≡ false)
        × (b.url ≢ "")
        × ((b.protocol_version ≡ protocol_version_stateful)
            ⊎ (b.protocol_version ≡ protocol_version_stateless))
        × (b.tenants ≢ [])
        × (validate_tenants b.name 0 b.tenants m ≡ ok m'))
unfolding validate_backend
validate_backend_iff i b names m m' = ground (
  arith,
  eq_iff b.name "",
  eq_iff b.url "",
  is_empty_iff b.tenants,
  eq_iff b.protocol_version protocol_version_stateful,
  eq_iff b.protocol_version protocol_version_stateless,
)

validate_backends-cons :
    (i : ℕ) (b : BackendConfig) (bs : List BackendConfig) (names : Dict (Unit {0}))
    (m : Dict String)
    → (validate_backends i (b ∷ bs) names m ≡ ok tt) ↔ (
        (m' : Dict String) × (validate_backend i b names m ≡ ok m')
        × (validate_backends (i + 1) bs (insert b.name tt names) m' ≡ ok tt))
unfolding validate_backends
validate_backends-cons i b bs names m =
    (>>=-eq-ok (validate_backend i b names m) _, λ h. rw h.1 h.2)

validate_backends_sound :
    (i : ℕ) (bs : List BackendConfig) (names : Dict (Unit {0})) (m : Dict String)
    (named seen : List String)
    → Tracks names named
    → Tracks m seen
    → validate_backends i bs names m ≡ ok tt
    → All IsBackend bs × AreNew named (names_of bs) × AreNew seen (all_ids bs)
validate_backends_sound i [] names m named seen n t h = (tt, tt, tt)
validate_backends_sound i (b ∷ bs) names m named seen n t h =
    let (m', first, rest) = (validate_backends-cons i b bs names m).0 h in
    let (name, new, url, protocol, some_tenant, loop) =
      (validate_backend_iff i b names m m').0 first in
    let (tenants, fresh, tracks) = validate_tenants_sound b.name 0 b.tenants m m' seen t loop in
    let (each, new_names, new_ids) =
      validate_backends_sound (i + 1) bs (insert b.name tt names) m' (b.name ∷ named)
        (push (ids b.tenants) seen) (Tracks-insert b.name tt names named n) tracks rest in
    (
      (
        record {
          name = name;
          url = url;
          protocol = protocol;
          tenants = some_tenant;
          each = tenants;
        },
        each,
      ),
      (cc (n b.name), new_names),
      (AreNew-concat seen (ids b.tenants) (all_ids bs)).1 (fresh, new_ids),
    )

validate_backends_complete :
    (i : ℕ) (bs : List BackendConfig) (names : Dict (Unit {0})) (m : Dict String)
    (named seen : List String)
    → Tracks names named
    → Tracks m seen
    → All IsBackend bs
    → AreNew named (names_of bs)
    → AreNew seen (all_ids bs)
    → validate_backends i bs names m ≡ ok tt
validate_backends_complete i [] names m named seen n t _ _ _ = unfold validate_backends in refl
validate_backends_complete i (b ∷ bs) names m named seen n t (good, each) (new, new_names) fresh =
    let (fresh, new_ids) = (AreNew-concat seen (ids b.tenants) (all_ids bs)).0 fresh in
    let (m', loop, tracks) =
      validate_tenants_complete b.name 0 b.tenants m seen t good.each fresh in
    let first =
      (validate_backend_iff i b names m m').1
        (good.name, cc (n b.name), good.url, good.protocol, good.tenants, loop) in
    let rest =
      validate_backends_complete (i + 1) bs (insert b.name tt names) m' (b.name ∷ named)
        (push (ids b.tenants) seen) (Tracks-insert b.name tt names named n) tracks each new_names
        new_ids in
    (validate_backends-cons i b bs names m).1 (m', first, rest)

-- `Validate` accepts a configuration exactly when it is usable: the authentication mode is one of
-- the three and has the key material that it needs (jwks a URL or an issuer, static exactly one of
-- secret and key file), there is a backend, every backend has a name, a URL, one of the two
-- protocol revisions and a tenant, every tenant has an id and a group, no two backends have one
-- name, and no two tenants of all the backends have one id.
pub validate_iff : (c : Config) → (validate c ≡ ok tt) ↔ IsUsable c
unfolding validate
validate_iff c = (
  (λ h.
      let (_, keys, h) = >>=-eq-ok (validate_auth c.auth) _ h in
      let (some_backend, h) = fail_if-eq-ok (is_empty c.backends) _ _ h in
      let (each, new_names, new_ids) =
        validate_backends_sound 0 c.backends [] [] [] [] (Tracks-empty _) (Tracks-empty _) h in
      record {
        keys = (validate_auth_iff c.auth).0 keys;
        some_backend = ground (arith, is_empty_iff c.backends);
        each = each;
        distinct_names = new_names;
        distinct_ids = new_ids;
      }),
  (λ u.
      let rest =
        validate_backends_complete 0 c.backends [] [] [] [] (Tracks-empty _) (Tracks-empty _) u.each
          u.distinct_names u.distinct_ids in
      ground (arith, u, rest, validate_auth_iff c.auth, is_empty_iff c.backends)),
)
