-- ===== src/Config/Load/Laws.antt =====
-- What `Load` returns, against the file and the environment.
use mt_mcp_proxy.Base.{
  String, ◌≡◌, refl, ap, subst, ok-injective, ◌↔◌, inl, inr, Option, none, some, List, ◌∷◌, Result,
  ok, >>=-eq-ok, Result-cases, ◌>>=◌, wrap_error,
}
use mt_mcp_proxy.Base.Traverse.{All2, wrapped-eq-ok, traverse_iff}
use mt_mcp_proxy.Base.Dict.{Dict}
use mt_mcp_proxy.Config.{TenantConfig, BackendConfig, Config, ConfigError}
use mt_mcp_proxy.Config.Env.{
  LookupEnv, expand_refs, expand_headers, expand_tenant, expand_tenants, expand_backend,
  expand_backends, expand_env,
}
use mt_mcp_proxy.Config.Env.Replace.{Expands}
use mt_mcp_proxy.Config.Env.Expand.{expand_refs_iff}
use mt_mcp_proxy.Config.Validate.{apply_defaults, validate}
use mt_mcp_proxy.Config.Validate.Usable.{IsUsable}
use mt_mcp_proxy.Config.Validate.Laws.{validate_iff}
use mt_mcp_proxy.Config.Load.{load, or_fail}

or_fail-eq-ok {ℓ κ} :
    {A : Type ℓ} {B : Type κ} (o : Option A) (e : ConfigError) (next : A → Result ConfigError B)
    {b : B}
    → (or_fail o e >>= next) ≡ ok b
    → (a : A) × (o ≡ some a) × (next a ≡ ok b)
or_fail-eq-ok none e next h = cc
or_fail-eq-ok (some a) e next h = (a, refl, h)

module _ (lookup_env : LookupEnv) where
  -- The same key, with its value expanded.
  abbrev pub HeaderExpands : String × String → String × String → Type 0
  HeaderExpands (k, v) (k', v') = (k ≡ k') × Expands lookup_env v v'

  -- Only the secrets differ.
  pub record TenantExpands (t t' : TenantConfig) : Type 0 where
    pub credential : Expands lookup_env t.credential t'.credential
    pub headers : All2 HeaderExpands t.headers t'.headers
    pub others : record t { credential = t'.credential; headers = t'.headers } ≡ t'

  pub record BackendExpands (b b' : BackendConfig) : Type 0 where
    pub credential : Expands lookup_env b.credential b'.credential
    pub headers : All2 HeaderExpands b.headers b'.headers
    pub tenants : All2 TenantExpands b.tenants b'.tenants
    pub others :
        record b { credential = b'.credential; headers = b'.headers; tenants = b'.tenants } ≡ b'

  pub record ConfigExpands (c c' : Config) : Type 0 where
    pub backends : All2 BackendExpands c.backends c'.backends
    pub others : record c { backends = c'.backends } ≡ c'

  abbrev expand_header : String × String → Result (String × String) (String × String)
  expand_header (k, v) = do
    expanded ← wrap_error (λ missing. (k, missing)) (expand_refs lookup_env v)
    ok (k, expanded)

  expand_header_iff : (e e' : String × String) → (expand_header e ≡ ok e') ↔ HeaderExpands e e'
  expand_header_iff (k, v) (k', v') = (
    (λ h.
        let (expanded, found, same) = wrapped-eq-ok _ (expand_refs lookup_env v) _ h in
        (cc same, (expand_refs_iff lookup_env v v').0 (cc (same, found)))),
    (λ h. rw (h.0, (expand_refs_iff lookup_env v v').1 h.1) refl),
  )

  expand_headers-cons :
      (e : String × String) (m : Dict String)
      → expand_headers lookup_env (e ∷ m)
        ≡ (expand_header e >>= λ e'. expand_headers lookup_env m >>= λ m'. ok (e' ∷ m'))
  unfolding expand_headers
  expand_headers-cons (k, v) m = elim (Result-cases (expand_refs lookup_env v)) [
    | inl bad ↦ rw bad.1 refl
    | inr good ↦ rw good.1 refl
  ]

  expand_headers_iff :
      (m m' : Dict String) → (expand_headers lookup_env m ≡ ok m') ↔ All2 HeaderExpands m m'
  expand_headers_iff =
      traverse_iff HeaderExpands expand_header (expand_headers lookup_env)
        (unfold expand_headers in refl) expand_headers-cons expand_header_iff

  expand_tenant_iff :
      (b : BackendConfig) (t t' : TenantConfig)
      → (expand_tenant lookup_env b t ≡ ok t') ↔ TenantExpands t t'
  unfolding expand_tenant
  expand_tenant_iff b t t' = (
    (λ h.
        let (credential, secret, h) = wrapped-eq-ok _ (expand_refs lookup_env t.credential) _ h in
        let (headers, sent, h) = wrapped-eq-ok _ (expand_headers lookup_env t.headers) _ h in
        subst (TenantExpands t) (ok-injective h) (record {
          credential = (expand_refs_iff lookup_env t.credential credential).0 secret;
          headers = (expand_headers_iff t.headers headers).0 sent;
          others = refl;
        })),
    (λ e.
        rw
          (
            (expand_refs_iff lookup_env t.credential t'.credential).1 e.credential,
            (expand_headers_iff t.headers t'.headers).1 e.headers,
          )
          (ap ok e.others)),
  )

  expand_tenants_iff :
      (b : BackendConfig) (ts ts' : List TenantConfig)
      → (expand_tenants lookup_env b ts ≡ ok ts') ↔ All2 TenantExpands ts ts'
  unfolding expand_tenants
  expand_tenants_iff b =
      traverse_iff TenantExpands (expand_tenant lookup_env b) (expand_tenants lookup_env b) refl
        (λ t ts. refl) (expand_tenant_iff b)

  expand_backend_iff :
      (b b' : BackendConfig) → (expand_backend lookup_env b ≡ ok b') ↔ BackendExpands b b'
  unfolding expand_backend
  expand_backend_iff b b' = (
    (λ h.
        let (credential, secret, h) = wrapped-eq-ok _ (expand_refs lookup_env b.credential) _ h in
        let (headers, sent, h) = wrapped-eq-ok _ (expand_headers lookup_env b.headers) _ h in
        let (tenants, served, h) = >>=-eq-ok (expand_tenants lookup_env b b.tenants) _ h in
        subst (BackendExpands b) (ok-injective h) (record {
          credential = (expand_refs_iff lookup_env b.credential credential).0 secret;
          headers = (expand_headers_iff b.headers headers).0 sent;
          tenants = (expand_tenants_iff b b.tenants tenants).0 served;
          others = refl;
        })),
    (λ e.
        rw
          (
            (expand_refs_iff lookup_env b.credential b'.credential).1 e.credential,
            (expand_headers_iff b.headers b'.headers).1 e.headers,
            (expand_tenants_iff b b.tenants b'.tenants).1 e.tenants,
          )
          (ap ok e.others)),
  )

  expand_backends_iff :
      (bs bs' : List BackendConfig)
      → (expand_backends lookup_env bs ≡ ok bs') ↔ All2 BackendExpands bs bs'
  unfolding expand_backends
  expand_backends_iff =
      traverse_iff BackendExpands (expand_backend lookup_env) (expand_backends lookup_env) refl
        (λ b bs. refl) expand_backend_iff

  expand_env_iff : (c c' : Config) → (expand_env lookup_env c ≡ ok c') ↔ ConfigExpands c c'
  unfolding expand_env
  expand_env_iff c c' = (
    (λ h.
        let (backends, expanded, h) = >>=-eq-ok (expand_backends lookup_env c.backends) _ h in
        subst (ConfigExpands c) (ok-injective h) (record {
          backends = (expand_backends_iff c.backends backends).0 expanded;
          others = refl;
        })),
    (λ e. rw ((expand_backends_iff c.backends c'.backends).1 e.backends) (ap ok e.others)),
  )

  module _ (read_file : String → Option String) (unmarshal : String → Option Config) where
    -- What the configuration comes from.
    pub record Loads (path : String) (c : Config) : Type 0 where
      pub raw : String
      pub parsed : Config
      pub file : read_file path ≡ some raw
      pub decoded : unmarshal raw ≡ some parsed
      pub expands : ConfigExpands (apply_defaults parsed) c
      pub usable : IsUsable c

    -- `Load` returns a configuration exactly when the file can be read and decoded, every variable
    -- that a secret of the decoded configuration refers to is set, the configuration is the decoded
    -- one with its defaults, in which the credentials and header values of the backends and tenants
    -- have their references replaced and nothing else is changed, and the result is usable.
    pub load_iff :
        (path : String) (c : Config)
        → (load lookup_env read_file unmarshal path ≡ ok c) ↔ Loads path c
    unfolding load
    load_iff path c = (
      (λ h.
          let (raw, file, h) = or_fail-eq-ok (read_file path) _ _ h in
          let (parsed, decoded, h) = or_fail-eq-ok (unmarshal raw) _ _ h in
          let (expanded, expands, h) =
            >>=-eq-ok (expand_env lookup_env (apply_defaults parsed)) _ h in
          let (_, valid, h) = >>=-eq-ok (validate expanded) _ h in
          subst (Loads path) (ok-injective h) (record {
            raw = raw;
            parsed = parsed;
            file = file;
            decoded = decoded;
            expands = (expand_env_iff (apply_defaults parsed) expanded).0 expands;
            usable = (validate_iff expanded).0 valid;
          })),
      (λ l.
          rw
            (
              l.file,
              l.decoded,
              (expand_env_iff (apply_defaults l.parsed) c).1 l.expands,
              (validate_iff c).1 l.usable,
            )
            refl),
    )
