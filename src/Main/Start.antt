-- ===== src/Main/Start.antt =====
-- What `run` builds, and why it may build nothing.
use mt_mcp_proxy.Base.{
  ℕ, String, ◌≡◌, refl, subst, ◌⊎◌, inl, inr, ok, err, Result, ok-injective, wrap_error, ◌>>=◌,
}
use mt_mcp_proxy.Base.Traverse.{wrapped-eq-ok}
use mt_mcp_proxy.Config.{Config}
use mt_mcp_proxy.Config.Load.{load}
use mt_mcp_proxy.Config.Load.Laws.{load_iff}
use mt_mcp_proxy.Config.Validate.{validate, validate_auth}
use mt_mcp_proxy.Config.Validate.Laws.{validate_iff, validate_auth_iff}
use mt_mcp_proxy.Auth.New.{NewError, Verifier}
use mt_mcp_proxy.Auth.New
use mt_mcp_proxy.Auth.New.Failures.{IsOutside, new-IsOutside}
use mt_mcp_proxy.Registry.{Registry}
use mt_mcp_proxy.Registry
use mt_mcp_proxy.Registry.UrlErrors.{IsUrlError, new-IsUrlError}
use mt_mcp_proxy.Observability.{Observability, SetupError, setup}
use mt_mcp_proxy.Main.{
  Outside, RunError, config_error, auth_error, registry_error, setup_error, App, app, setup_config,
  start,
}
use mt_mcp_proxy.Registry.Build.{IsWellFormed, new-IsWellFormed}

-- Two results in sequence, the error of the first wrapped, and the ways that they fail.
pub err-injective : {E A : Type 0} {a b : E} → ◌≡◌ {A = Result E A} (err a) (err b) → a ≡ b
err-injective h = cc

pub wrapped-eq-err :
    {E F A B : Type 0} (f : E → F) (r : Result E A) (next : A → Result F B) {e : F}
    → (wrap_error f r >>= next) ≡ err e
    → ((x : E) × (r ≡ err x) × (f x ≡ e)) ⊎ ((a : A) × (r ≡ ok a) × (next a ≡ err e))
wrapped-eq-err f (ok a) next h = inr (a, refl, h)
wrapped-eq-err f (err x) next h = inl (x, refl, cc)

module _ {PublicKey KeySet : Type 0} (o : Outside PublicKey KeySet) where
  -- The parts that an app is built of.
  pub record Built (version path : String) (now : ℕ) (a : App) : Type 0 where
    pub cfg : Config
    pub verifier : Verifier PublicKey KeySet
    pub registry : Registry
    pub observability : Observability
    pub loaded : load o.lookup_env o.read_file o.unmarshal path ≡ ok cfg
    pub trusted : New.new o.keys cfg.auth ≡ ok verifier
    pub registered : Registry.new o.parse_url cfg.backends ≡ ok registry
    pub observed : setup o.telemetry (setup_config o cfg version) ≡ ok observability
    pub same : app o cfg verifier registry observability now ≡ a

  pub start-Built :
      (version path : String) (now : ℕ) (a : App)
      → start o version path now ≡ ok a
      → Built version path now a
  unfolding start
  start-Built version path now a h =
      let (cfg, loaded, h) =
        wrapped-eq-ok config_error (load o.lookup_env o.read_file o.unmarshal path) _ h in
      let (verifier, trusted, h) = wrapped-eq-ok auth_error (New.new o.keys cfg.auth) _ h in
      let (registry, registered, h) =
        wrapped-eq-ok registry_error (Registry.new o.parse_url cfg.backends) _ h in
      let (observability, observed, h) =
        wrapped-eq-ok setup_error (setup o.telemetry (setup_config o cfg version)) _ h in
      record {
        cfg = cfg;
        verifier = verifier;
        registry = registry;
        observability = observability;
        loaded = loaded;
        trusted = trusted;
        registered = registered;
        observed = observed;
        same = ok-injective h;
      }

  pub start-IsWellFormed :
      (version path : String) (now : ℕ) (a : App)
      → start o version path now ≡ ok a
      → IsWellFormed a.handler.registry.by_tenant
  start-IsWellFormed version path now a h =
      let b = start-Built version path now a h in
      subst (λ (x : App). IsWellFormed x.handler.registry.by_tenant) b.same
        (new-IsWellFormed o.parse_url b.cfg.backends b.registry b.registered)

  load-valid :
      (path : String) (cfg : Config)
      → load o.lookup_env o.read_file o.unmarshal path ≡ ok cfg
      → (validate cfg ≡ ok tt) × (validate_auth cfg.auth ≡ ok tt)
  load-valid path cfg h =
      let usable = ((load_iff o.lookup_env o.read_file o.unmarshal path cfg).0 h).usable in
      ((validate_iff cfg).1 usable, (validate_auth_iff cfg.auth).1 usable.keys)

  -- What an error of `run` says.
  abbrev pub IsCause : String → RunError → Type 0
  IsCause path (config_error e) = load o.lookup_env o.read_file o.unmarshal path ≡ err e
  IsCause path (auth_error e) = IsOutside e
  IsCause path (registry_error e) = IsUrlError e
  IsCause path (setup_error e) = Unit

  observability-IsCause :
      (path : String) (r : Result SetupError Observability) (next : Observability → App)
      {e : RunError}
      → (wrap_error setup_error r >>= λ obs. ok (next obs)) ≡ err e
      → IsCause path e
  observability-IsCause path (ok obs) next h = cc h
  observability-IsCause path (err x) next h = subst (IsCause path) (err-injective h) tt

  registry-IsCause :
      (path : String) (cfg : Config)
      → validate cfg ≡ ok tt
      → (next : Registry → Result RunError App)
      → ((r : Registry) (e : RunError) → next r ≡ err e → IsCause path e)
      → {e : RunError}
      → (wrap_error registry_error (Registry.new o.parse_url cfg.backends) >>= next) ≡ err e
      → IsCause path e
  registry-IsCause path cfg valid next later h =
      elim (wrapped-eq-err registry_error (Registry.new o.parse_url cfg.backends) next h) [
        | inl (x, refused, same) ↦
            subst (IsCause path) same (new-IsUrlError o.parse_url cfg x valid refused)
        | inr (r, _, h) ↦ later r _ h
      ]

  verifier-IsCause :
      (path : String) (cfg : Config)
      → load o.lookup_env o.read_file o.unmarshal path ≡ ok cfg
      → (next : Verifier PublicKey KeySet → Result RunError App)
      → ((v : Verifier PublicKey KeySet) (e : RunError) → next v ≡ err e → IsCause path e)
      → {e : RunError} → (wrap_error auth_error (New.new o.keys cfg.auth) >>= next) ≡ err e
      → IsCause path e
  verifier-IsCause path cfg loaded next later h =
      elim (wrapped-eq-err auth_error (New.new o.keys cfg.auth) next h) [
        | inl (x, refused, same) ↦
            subst (IsCause path) same
              (new-IsOutside o.keys cfg.auth x (load-valid path cfg loaded).1 refused)
        | inr (v, _, h) ↦ later v _ h
      ]

  -- The errors on the way to the handler.
  pub start-IsCause :
      (version path : String) (now : ℕ) (e : RunError)
      → start o version path now ≡ err e
      → IsCause path e
  unfolding start
  start-IsCause version path now e h =
      elim (wrapped-eq-err config_error (load o.lookup_env o.read_file o.unmarshal path) _ h) [
        | inl (x, refused, same) ↦ subst (IsCause path) same refused
        | inr (cfg, loaded, h) ↦
            verifier-IsCause path cfg loaded _
              (λ v e h.
                registry-IsCause path cfg (load-valid path cfg loaded).0 _
                  (λ r e h.
                    observability-IsCause path (setup o.telemetry (setup_config o cfg version)) _ h)
                  h)
              h
      ]
