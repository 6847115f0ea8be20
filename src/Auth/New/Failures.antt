-- ===== src/Auth/New/Failures.antt =====
-- Why `New` fails on a configuration that `Validate` accepts.
use mt_mcp_proxy.Base.{
  String, ◌≡◌, subst, ◌≢◌, true, false, Option, none, some, ◌==◌, arith, eq_iff, inl, inr, ◌⊎◌,
  Bool, not, Bool-cases, Result, ok, err, ◌>>=◌, if◌then◌else◌, nat_eq,
}
use mt_mcp_proxy.Json.{Json}
use mt_mcp_proxy.Config.{AuthConfig, auth_mode_jwks, auth_mode_static, auth_mode_insecure}
use mt_mcp_proxy.Config.Validate.{validate_auth}
use mt_mcp_proxy.Config.Validate.Usable.{HasKeys}
use mt_mcp_proxy.Config.Validate.Laws.{validate_auth_iff}
use mt_mcp_proxy.Auth.New.{
  NewError, no_issuer, unsupported_mode, invalid_issuer, bad_document, no_jwks_uri, init_jwks,
  read_key, invalid_pem, parse_key, Outside, Fetched, not_built, failed, answered, jwks_uri_of,
  or_error, load_public_key, load_static_key, document, discovered, discovery_url,
  discover_jwks_url, new_static, jwks_url, new_jwks, new,
}

-- The errors that the configuration does not decide.
abbrev pub IsOutside : NewError → Type 0
IsOutside (unsupported_mode m) = ⊥
IsOutside no_issuer = ⊥
IsOutside e = Unit

-- It fails for outside reasons only.
abbrev IsFair : {A : Type 0} → Result NewError A → Type 0
IsFair (ok a) = Unit
IsFair (err e) = IsOutside e

>>=-IsFair :
    {A B : Type 0} (m : Result NewError A) (f : A → Result NewError B)
    → IsFair m
    → ((a : A) → IsFair (f a))
    → IsFair (m >>= f)
>>=-IsFair (ok a) f h k = k a
>>=-IsFair (err e) f h k = h

or_error-IsFair : {A : Type 0} (x : Option A) (e : NewError) → IsOutside e → IsFair (or_error x e)
or_error-IsFair none e h = h
or_error-IsFair (some a) e h = tt

if-IsFair :
    {A : Type 0} (b : Bool) (x y : Result NewError A)
    → IsFair x
    → IsFair y
    → IsFair (if b then x else y)
if-IsFair true x y h k = h
if-IsFair false x y h k = k

module _ {PublicKey KeySet : Type 0} (o : Outside PublicKey KeySet) where
  new_static-IsFair : (c : AuthConfig) → IsFair (new_static o c)
  unfolding new_static load_static_key load_public_key
  new_static-IsFair c =
      >>=-IsFair (load_static_key o c) _
        (if-IsFair (not (c.hmac_secret == "")) _ _ tt (
          >>=-IsFair (or_error (o.read_file c.public_key_pem_file) read_key) _
            (or_error-IsFair _ read_key tt)
            (λ pem.
              >>=-IsFair (or_error (o.pem_decode pem) invalid_pem) _
                (or_error-IsFair _ invalid_pem tt)
                (λ block.
                  >>=-IsFair (or_error (o.parse_public_key block) parse_key) _
                    (or_error-IsFair _ parse_key tt) (λ key. tt)))))
        (λ r. tt)

  document-IsFair : (v : Option Json) → IsFair (document o v)
  document-IsFair none = tt
  document-IsFair (some v) = uri (jwks_uri_of v)
    where
      uri :
          (u : Option String)
          → IsFair (elim u [
            | none ↦ err bad_document
            | some x ↦ if x == "" then err no_jwks_uri else ok x
          ])
      uri none = tt
      uri (some x) = if-IsFair (x == "") (err no_jwks_uri) (ok x) tt tt

  discovered-IsFair : (f : Fetched) → IsFair (discovered o f)
  discovered-IsFair not_built = tt
  discovered-IsFair failed = tt
  discovered-IsFair (answered status body) =
      if-IsFair (not (nat_eq status 200)) _ _ tt (document-IsFair (o.decode_json body))

  jwks_url-IsFair : (c : AuthConfig) → (c.jwks_url ≢ "") ⊎ (c.issuer ≢ "") → IsFair (jwks_url o c)
  unfolding jwks_url discover_jwks_url
  jwks_url-IsFair c h = elim (Bool-cases (c.jwks_url == "")) [
    | inr set ↦ rw set tt
    | inl e ↦ elim (Bool-cases (c.issuer == "")) [
      | inl e' ↦ absurd (ground (arith, eq_iff c.jwks_url "", eq_iff c.issuer ""))
      | inr set ↦
          rw (e, set)
            (>>=-IsFair (or_error (o.parse_url c.issuer) invalid_issuer) _
              (or_error-IsFair _ invalid_issuer tt)
              (λ base. discovered-IsFair (o.fetch (discovery_url base))))
    ]
  ]

  new_jwks-IsFair : (c : AuthConfig) → (c.jwks_url ≢ "") ⊎ (c.issuer ≢ "") → IsFair (new_jwks o c)
  unfolding new_jwks
  new_jwks-IsFair c h = >>=-IsFair (jwks_url o c) _ (jwks_url-IsFair c h) (λ url.
      >>=-IsFair (or_error (o.key_set url) init_jwks) _
        (or_error-IsFair (o.key_set url) init_jwks tt) (λ keys. tt))

  new-IsFair : (c : AuthConfig) → HasKeys c → IsFair (new o c)
  unfolding new
  new-IsFair c h = elim (Bool-cases (c.mode == auth_mode_insecure)) [
    | inl e ↦ rw e tt
    | inr ne ↦ elim (Bool-cases (c.mode == auth_mode_static)) [
      | inl e ↦ rw (ne, e) (new_static-IsFair c)
      | inr ne' ↦
          let (mode, sources) : (c.mode ≡ auth_mode_jwks) × ((c.jwks_url ≢ "") ⊎ (c.issuer ≢ "")) =
            ground (arith, eq_iff c.mode auth_mode_insecure, eq_iff c.mode auth_mode_static) in
          rw (ne, ne', (eq_iff c.mode auth_mode_jwks).1 mode) (new_jwks-IsFair c sources)
    ]
  ]

  -- If `Validate` accepts the authentication part of a configuration and `New` fails on it, the
  -- error comes from outside (a file, a key, a URL, the network, a document): it is neither an
  -- unsupported mode nor a missing issuer.
  pub new-IsOutside :
      (c : AuthConfig) (e : NewError) → validate_auth c ≡ ok tt → new o c ≡ err e → IsOutside e
  new-IsOutside c e valid h = subst IsFair h (new-IsFair c ((validate_auth_iff c).0 valid))
