-- ===== src/Auth/New/Laws.antt =====
-- `New`: which verifier a configuration gets, and why there may be none.
use mt_mcp_proxy.Base.{
  String, ◌≡◌, refl, subst, ◌≢◌, List, [], ◌∷◌, ◌++◌, ◌==◌, arith, eq_iff, inl, inr, Bool-cases, ok,
  ok-injective, >>=-eq-ok, In, is_empty, if◌then◌else◌,
}
use mt_mcp_proxy.Base.Member.{In-left, In-last}
use mt_mcp_proxy.Config.{AuthConfig, auth_mode_jwks, auth_mode_static, auth_mode_insecure}
use mt_mcp_proxy.Auth.{
  ParserOption, expiration_required, with_issuer, valid_methods, parser_opts, accepted_audiences,
  JwtVerifier, options,
}
use mt_mcp_proxy.Auth.New.{
  Outside, Key, hmac, public_key, of_key_set, Verifier, insecure, jwt, hmac_algs, public_key_algs,
  load_static_key, jwt_verifier, or_error, load_public_key, new_static, jwks_url, new_jwks, new,
}

abbrev options_of : AuthConfig → List String → List ParserOption
options_of c algs = parser_opts c ++ (if is_empty algs then [] else valid_methods algs ∷ [])

module _ {PublicKey KeySet : Type 0} where
  -- The key is of the configured mode, and the parser takes only algorithms of the key's family.
  abbrev pub IsMatched : AuthConfig → Key PublicKey KeySet → List ParserOption → Type 0
  IsMatched c (hmac secret) opts =
      (c.mode ≡ auth_mode_static) × (secret ≡ c.hmac_secret) × In (valid_methods hmac_algs) opts
  IsMatched c (public_key k) opts =
      (c.mode ≡ auth_mode_static) × (c.hmac_secret ≡ "") × In (valid_methods public_key_algs) opts
  IsMatched c (of_key_set ks) opts = c.mode ≡ auth_mode_jwks

  pub record IsStrict (c : AuthConfig) (v : JwtVerifier (Key PublicKey KeySet)) : Type 0 where
    pub matched : IsMatched c v.keyfunc (options v)
    pub expiration : In expiration_required (options v)
    pub issuer : c.issuer ≢ "" → In (with_issuer c.issuer) (options v)
    pub audiences : v.audiences ≡ accepted_audiences c
    pub scopes : v.scopes_supported ≡ c.scopes_supported
    pub claim : v.groups_claim ≡ c.groups_claim

  -- Signatures are not verified in the mode insecure, and only there.
  abbrev pub Trusts : AuthConfig → Verifier PublicKey KeySet → Type 0
  Trusts c (insecure v) =
      (c.mode ≡ auth_mode_insecure)
      × (v.audiences ≡ accepted_audiences c)
      × (v.scopes_supported ≡ c.scopes_supported)
      × (v.groups_claim ≡ c.groups_claim)
  Trusts c (jwt v) = IsStrict c v

module _ {PublicKey KeySet : Type 0} (o : Outside PublicKey KeySet) where
  -- A key of one kind, with the algorithms of that kind.
  pub data IsPaired (c : AuthConfig) : Key PublicKey KeySet → List String → Type 0 where
    by_secret : c.hmac_secret ≢ "" → IsPaired c (hmac c.hmac_secret) hmac_algs
    by_key : (k : PublicKey) → c.hmac_secret ≡ "" → IsPaired c (public_key k) public_key_algs

  load_public_key-eq-ok :
      (c : AuthConfig) (r : Key PublicKey KeySet × List String)
      → load_public_key o c ≡ ok r
      → (k : PublicKey) × ((public_key k, public_key_algs) ≡ r)
  unfolding load_public_key
  load_public_key-eq-ok c r h =
      let (pem, _, rest) = >>=-eq-ok (or_error (o.read_file c.public_key_pem_file) _) _ h in
      let (block, _, rest) = >>=-eq-ok (or_error (o.pem_decode pem) _) _ rest in
      let (key, _, rest) = >>=-eq-ok (or_error (o.parse_public_key block) _) _ rest in
      (key, ok-injective rest)

  load_static_key-IsPaired :
      (c : AuthConfig) (r : Key PublicKey KeySet × List String)
      → load_static_key o c ≡ ok r
      → IsPaired c r.0 r.1
  unfolding load_static_key
  load_static_key-IsPaired c r h = elim (Bool-cases (c.hmac_secret == "")) [
    | inl nothing ↦
        let (k, same) = load_public_key-eq-ok c r (rw nothing at h) in
        subst (λ q. IsPaired c q.0 q.1) same (by_key k ((eq_iff c.hmac_secret "").0 nothing))
    | inr set ↦
        let same : (hmac c.hmac_secret, hmac_algs) ≡ r = ok-injective (rw set at h) in
        subst (λ q. IsPaired c q.0 q.1) same
          (by_secret (λ e. cc (set, (eq_iff c.hmac_secret "").1 e)))
  ]

  In-parser_opts :
      (c : AuthConfig)
      → (In expiration_required (parser_opts c))
        × (c.issuer ≢ "" → In (with_issuer c.issuer) (parser_opts c))
  unfolding parser_opts
  In-parser_opts c = elim (Bool-cases (c.issuer == "")) [
    | inl e ↦ (inl refl, λ h. absurd (h ((eq_iff c.issuer "").0 e)))
    | inr e ↦ (inl refl, λ h. inr (rw e (inl refl)))
  ]

  jwt_verifier-Trusts :
      (c : AuthConfig) (key : Key PublicKey KeySet) (algs : List String)
      → IsMatched c key (options_of c algs)
      → Trusts c (jwt_verifier o c key algs)
  jwt_verifier-Trusts c key algs m = record {
    matched = m;
    expiration = In-left expiration_required (parser_opts c) _ (In-parser_opts c).0;
    issuer = λ h. In-left (with_issuer c.issuer) (parser_opts c) _ ((In-parser_opts c).1 h);
    audiences = refl;
    scopes = refl;
    claim = refl;
  }

  IsPaired-Trusts :
      (c : AuthConfig) {key : Key PublicKey KeySet} {algs : List String}
      → c.mode ≡ auth_mode_static
      → IsPaired c key algs
      → Trusts c (jwt_verifier o c key algs)
  IsPaired-Trusts c mode (by_secret h) =
      jwt_verifier-Trusts c (hmac c.hmac_secret) hmac_algs
        (mode, refl, In-last (valid_methods hmac_algs) (parser_opts c))
  IsPaired-Trusts c mode (by_key k h) =
      jwt_verifier-Trusts c (public_key k) public_key_algs
        (mode, h, In-last (valid_methods public_key_algs) (parser_opts c))

  new_static-Trusts :
      (c : AuthConfig) (v : Verifier PublicKey KeySet)
      → c.mode ≡ auth_mode_static
      → new_static o c ≡ ok v
      → Trusts c v
  unfolding new_static
  new_static-Trusts c v mode h =
      let (r, loaded, built) = >>=-eq-ok (load_static_key o c) _ h in
      subst (Trusts c) (ok-injective built)
        (IsPaired-Trusts c mode (load_static_key-IsPaired c r loaded))

  new_jwks-Trusts :
      (c : AuthConfig) (v : Verifier PublicKey KeySet)
      → c.mode ≡ auth_mode_jwks
      → new_jwks o c ≡ ok v
      → Trusts c v
  unfolding new_jwks
  new_jwks-Trusts c v mode h =
      let (url, _, rest) = >>=-eq-ok (jwks_url o c) _ h in
      let (keys, _, built) = >>=-eq-ok (or_error (o.key_set url) _) _ rest in
      subst (Trusts c) (ok-injective built) (jwt_verifier-Trusts c (of_key_set keys) [] mode)

  -- If `New` returns a verifier, it skips signatures only if the mode is insecure. Otherwise its
  -- parser requires an expiration and the configured issuer, and the key is that of the mode: with
  -- an HMAC secret only the HMAC algorithms are allowed, with a public key only the asymmetric
  -- ones, so that no token can be verified with a key of the other family. The audiences, scopes
  -- and the groups claim are the configured ones.
  pub new-Trusts : (c : AuthConfig) (v : Verifier PublicKey KeySet) → new o c ≡ ok v → Trusts c v
  unfolding new
  new-Trusts c v h = elim (Bool-cases (c.mode == auth_mode_insecure)) [
    | inl e ↦
        let built = ok-injective (rw e at h) in
        subst (Trusts c) built ((eq_iff c.mode auth_mode_insecure).0 e, refl, refl, refl)
    | inr ne ↦ elim (Bool-cases (c.mode == auth_mode_static)) [
      | inl e ↦ new_static-Trusts c v ((eq_iff c.mode auth_mode_static).0 e) (rw (ne, e) at h)
      | inr ne' ↦ elim (Bool-cases (c.mode == auth_mode_jwks)) [
        | inl e ↦ new_jwks-Trusts c v ((eq_iff c.mode auth_mode_jwks).0 e) (rw (ne, ne', e) at h)
        | inr ne'' ↦ absurd (ground arith)
      ]
    ]
  ]
