-- ===== src/Config/Validate/Usable.antt =====
-- The configurations that the program can use: internal/config/config.go, `Validate`.
use mt_mcp_proxy.Base.{
  String, ◌≡◌, ◌≢◌, ◌↔◌, ◌⊎◌, false, List, [], ◌∷◌, ◌++◌, arith, eq_iff, All, contains,
}
use mt_mcp_proxy.Config.{
  AuthConfig, BackendConfig, TenantConfig, Config, auth_mode_jwks, auth_mode_static,
  auth_mode_insecure, protocol_version_stateful, protocol_version_stateless,
}

-- The mode has the key material that it needs.
abbrev pub HasKeys : AuthConfig → Type 0
HasKeys a =
    ((a.mode ≡ auth_mode_jwks) × ((a.jwks_url ≢ "") ⊎ (a.issuer ≢ "")))
    ⊎ (((a.mode ≡ auth_mode_static)
          × (((a.hmac_secret ≢ "") × (a.public_key_pem_file ≡ ""))
              ⊎ ((a.hmac_secret ≡ "") × (a.public_key_pem_file ≢ ""))))
        ⊎ (a.mode ≡ auth_mode_insecure))

pub record IsTenant (t : TenantConfig) : Type 0 where
  pub id : t.id ≢ ""
  pub groups : t.groups ≢ []

pub record IsBackend (b : BackendConfig) : Type 0 where
  pub name : b.name ≢ ""
  pub url : b.url ≢ ""
  pub protocol :
      (b.protocol_version ≡ protocol_version_stateful)
      ⊎ (b.protocol_version ≡ protocol_version_stateless)
  pub tenants : b.tenants ≢ []
  pub each : All IsTenant b.tenants

-- No text of the list is among those seen or those before it.
abbrev pub AreNew : List String → List String → Type 0
AreNew seen [] = Unit
AreNew seen (x ∷ xs) = (contains seen x ≡ false) × AreNew (x ∷ seen) xs

abbrev pub names_of : List BackendConfig → List String
names_of [] = []
names_of (b ∷ bs) = b.name ∷ names_of bs

abbrev pub ids : List TenantConfig → List String
ids [] = []
ids (t ∷ ts) = t.id ∷ ids ts

abbrev pub all_ids : List BackendConfig → List String
all_ids [] = []
all_ids (b ∷ bs) = ids b.tenants ++ all_ids bs

pub record IsUsable (c : Config) : Type 0 where
  pub keys : HasKeys c.auth
  pub some_backend : c.backends ≢ []
  pub each : All IsBackend c.backends
  pub distinct_names : AreNew [] (names_of c.backends)
  pub distinct_ids : AreNew [] (all_ids c.backends)

pub modes_differ :
    (auth_mode_jwks ≢ auth_mode_static)
    × (auth_mode_jwks ≢ auth_mode_insecure)
    × (auth_mode_static ≢ auth_mode_insecure)
modes_differ = (
  λ h. cc ((eq_iff auth_mode_jwks auth_mode_static).1 h),
  λ h. cc ((eq_iff auth_mode_jwks auth_mode_insecure).1 h),
  λ h. cc ((eq_iff auth_mode_static auth_mode_insecure).1 h),
)

abbrev pub push : List String → List String → List String
push [] seen = seen
push (x ∷ xs) seen = push xs (x ∷ seen)

pub AreNew-concat :
    (seen xs ys : List String)
    → AreNew seen (xs ++ ys) ↔ (AreNew seen xs × AreNew (push xs seen) ys)
AreNew-concat seen [] ys = ground arith
AreNew-concat seen (x ∷ xs) ys = ground (arith, AreNew-concat (x ∷ seen) xs ys)
