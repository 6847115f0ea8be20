-- ===== src/Config/Validate/Tenants.antt =====
-- The loop of `Validate` over the tenants of a backend, and the map that it keeps.
use mt_mcp_proxy.Base.{
  ℕ, ◌+◌, String, ◌≡◌, refl, ◌↔◌, false, List, [], ◌∷◌, arith, eq_iff, ok, All, contains,
}
use mt_mcp_proxy.Base.Member.{is_empty_iff}
use mt_mcp_proxy.Base.Dict.{Dict, insert, has, lookup-insert}
use mt_mcp_proxy.Config.{TenantConfig}
use mt_mcp_proxy.Config.Validate.{validate_tenants}
use mt_mcp_proxy.Config.Validate.Usable.{IsTenant, AreNew, ids, push}

-- The keys of the map are those seen.
abbrev pub Tracks {ℓ} : {V : Type ℓ} → Dict V → List String → Type 0
Tracks m seen = (x : String) → has x m ≡ contains seen x

pub Tracks-insert {ℓ} :
    {V : Type ℓ} (k : String) (v : V) (m : Dict V) (seen : List String)
    → Tracks m seen
    → Tracks (insert k v m) (k ∷ seen)
unfolding has
Tracks-insert k v m seen t x = ground (arith, lookup-insert k x v m, t x)

pub Tracks-empty {ℓ} : (V : Type ℓ) → Tracks {V = V} [] []
unfolding has
Tracks-empty V x = refl

-- One round of the inner loop goes on exactly when the tenant is in order and its id is free.
validate_tenants-cons :
    (backend : String) (ti : ℕ) (t : TenantConfig) (ts : List TenantConfig) (m m' : Dict String)
    → (validate_tenants backend ti (t ∷ ts) m ≡ ok m') ↔ (
        IsTenant t
        × (has t.id m ≡ false)
        × (validate_tenants backend (ti + 1) ts (insert t.id backend m) ≡ ok m'))
unfolding validate_tenants has
validate_tenants-cons backend ti t ts m m' = ground (arith, eq_iff t.id "", is_empty_iff t.groups)

pub validate_tenants_sound :
    (backend : String) (ti : ℕ) (ts : List TenantConfig) (m m' : Dict String) (seen : List String)
    → Tracks m seen
    → validate_tenants backend ti ts m ≡ ok m'
    → All IsTenant ts × AreNew seen (ids ts) × Tracks m' (push (ids ts) seen)
validate_tenants_sound backend ti [] m m' seen t h = unfold validate_tenants in ground arith
validate_tenants_sound backend ti (x ∷ ts) m m' seen t h =
    let (good, free, rest) = (validate_tenants-cons backend ti x ts m m').0 h in
    let (each, fresh, tracks) =
      validate_tenants_sound backend (ti + 1) ts _ m' (x.id ∷ seen)
        (Tracks-insert x.id backend m seen t) rest in
    ((good, each), (cc (t x.id), fresh), tracks)

pub validate_tenants_complete :
    (backend : String) (ti : ℕ) (ts : List TenantConfig) (m : Dict String) (seen : List String)
    → Tracks m seen
    → All IsTenant ts
    → AreNew seen (ids ts)
    → (m' : Dict String) × (validate_tenants backend ti ts m ≡ ok m')
      × Tracks m' (push (ids ts) seen)
validate_tenants_complete backend ti [] m seen t _ _ = (m, unfold validate_tenants in refl, t)
validate_tenants_complete backend ti (x ∷ ts) m seen t (good, each) (free, fresh) =
    let (m', runs, tracks) =
      validate_tenants_complete backend (ti + 1) ts _ (x.id ∷ seen)
        (Tracks-insert x.id backend m seen t) each fresh in
    (m', (validate_tenants-cons backend ti x ts m m').1 (good, cc (t x.id), runs), tracks)
