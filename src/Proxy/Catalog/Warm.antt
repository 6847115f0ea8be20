-- ===== src/Proxy/Catalog/Warm.antt =====
-- internal/proxy/catalog.go: when `warm` has every tool list.
use native.Mathlib.Nat.{le_trans}
use mt_mcp_proxy.Base.{
  ℕ, zero, suc, ◌+◌, ◌≤◌, ◌<◌, ◌≡◌, refl, ap, subst, ◌∙◌, ◌↔◌, ◌⊎◌, inl, inr, Option, some, List,
  [], ◌∷◌, arith, Result, ok, err, get_elem?, set, length, Bool-cases, Option-cases, Result-cases,
}
use mt_mcp_proxy.Proxy.Mcp.{RawTool}
use mt_mcp_proxy.Proxy.World.{Env, World, CatalogEntry}
use mt_mcp_proxy.Proxy.Client.{ClientError}
use mt_mcp_proxy.Proxy.Catalog.{fetch, refreshed, is_fresh, get_entry, get, warm_from, warm}
use mt_mcp_proxy.Proxy.Catalog.Cache.{get-Quiet}
use mt_mcp_proxy.Proxy.Catalog.Fresh.{fetch-Steady}

-- A list was had.
abbrev pub IsHad : Result ClientError (Option (List RawTool)) → Type 0
IsHad r = (ts : Option (List RawTool)) × (r ≡ ok ts)

-- The world after the first `n` catalogs were asked for their lists, one after the other.
abbrev pub visited : Env → ℕ → World → World
visited env zero w = w
visited env (suc n) w = (get env n (visited env n w)).1

-- From this time on, every catalog can be fetched.
abbrev pub Answers : Env → ℕ → Type 0
Answers env since = (c : CatalogEntry) (w : World) → since ≤ w.now → IsHad (fetch env c w).0

get_elem?-lt :
    {A : Type 0} (xs : List A) (i : ℕ) → i < length xs → (x : A) × (get_elem? xs i ≡ some x)
get_elem?-lt [] i h = ground arith
get_elem?-lt (x ∷ xs) zero h = (x, refl)
get_elem?-lt (x ∷ xs) (suc i) h = get_elem?-lt xs i (omega arith)

length-set : {A : Type 0} (xs : List A) (i : ℕ) (x : A) → length (set xs i x) ≡ length xs
length-set [] i x = refl
length-set (y ∷ xs) zero x = refl
length-set (y ∷ xs) (suc i) x = ap suc (length-set xs i x)

-- How many catalogs there are.
abbrev pub count : World → ℕ
count w = length w.catalogs.unique

module _ (env : Env) where
  refreshed-count :
      (i : ℕ) (c : CatalogEntry) (r : Result ClientError (Option (List RawTool))) (w : World)
      → count (refreshed i c r w).1 ≡ count w
  refreshed-count i c (ok ts) w = length-set w.catalogs.unique i _
  refreshed-count i c (err e) w = elim (Option-cases c.tools) [
    | inl q ↦ rw (q, refreshed) refl
    | inr (us, q) ↦ rw (q, refreshed) refl
  ]

  get_entry-count : (i : ℕ) (c : CatalogEntry) (w : World) → count (get_entry env i c w).1 ≡ count w
  unfolding get_entry
  get_entry-count i c w = elim (Bool-cases (is_fresh w.now c)) [
    | inl e ↦ rw e refl
    | inr e ↦ rw e (
        refreshed-count i c (fetch env c w).0 (fetch env c w).1
        ∙ ap (λ cs. length cs.unique) (fetch-Steady env c w).catalogs)
  ]

  get-count : (i : ℕ) (w : World) → count (get env i w).1 ≡ count w
  unfolding get
  get-count i w = elim (Option-cases (get_elem? w.catalogs.unique i)) [
    | inl e ↦ rw (e, get) refl
    | inr (c, e) ↦ rw (e, get) (get_entry-count i c w)
  ]

  refreshed-IsHad :
      (i : ℕ) (c : CatalogEntry) (r : Result ClientError (Option (List RawTool))) (w : World)
      → IsHad r
      → IsHad (refreshed i c r w).0
  refreshed-IsHad i c (ok ts) w h = (ts, refl)
  refreshed-IsHad i c (err e) w h = cc h.1

  get_entry-IsHad :
      (since i : ℕ) (c : CatalogEntry) (w : World)
      → Answers env since
      → since ≤ w.now
      → IsHad (get_entry env i c w).0
  unfolding get_entry
  get_entry-IsHad since i c w answers le = elim (Bool-cases (is_fresh w.now c)) [
    | inl e ↦ rw e (c.tools, refl)
    | inr e ↦ rw e (refreshed-IsHad i c (fetch env c w).0 (fetch env c w).1 (answers c w le))
  ]

  get-IsHad :
      (since i : ℕ) (w : World)
      → Answers env since
      → since ≤ w.now
      → i < count w
      → IsHad (get env i w).0
  unfolding get
  get-IsHad since i w answers le lt =
      let (c, e) = get_elem?-lt w.catalogs.unique i lt in
      rw (e, get) (get_entry-IsHad since i c w answers le)

  warm_from-cons :
      (i n : ℕ) (w : World)
      → ((warm_from env i (suc n) w).0 ≡ [])
        ↔ (IsHad (get env i w).0 × ((warm_from env (suc i) n (get env i w).1).0 ≡ []))
  unfolding warm_from
  warm_from-cons i n w = elim (Result-cases (get env i w).0) [
    | inl (e, q) ↦ rw q (λ h. cc h, λ h. cc h.0.1)
    | inr (ts, q) ↦ rw q (λ h. ((ts, refl), h), λ h. h.1)
  ]

  warm_from-Answers :
      (since i n : ℕ) (w : World)
      → Answers env since
      → since ≤ w.now
      → i + n ≤ count w
      → (warm_from env i n w).0 ≡ []
  warm_from-Answers since i zero w answers le bound = unfold warm_from in refl
  warm_from-Answers since i (suc n) w answers le bound =
      let same = get-count i w in
      (warm_from-cons i n w).1 (
        get-IsHad since i w answers le (omega (arith, bound)),
        warm_from-Answers since (suc i) n (get env i w).1 answers
            (le_trans le (get-Quiet env i w).later) (omega (arith, same, bound)),
      )

  pub warm-Answers :
      (since : ℕ) (w : World) → Answers env since → since ≤ w.now → (warm env w).0 ≡ []
  unfolding warm
  warm-Answers since w answers le = warm_from-Answers since 0 (count w) w answers le (omega arith)

  -- From place `i`, in the world that the places before leave.
  warm_from_iff :
      (i n : ℕ) (w : World)
      → ((warm_from env i n (visited env i w)).0 ≡ [])
        ↔ ((k : ℕ) → i ≤ k → k < i + n → IsHad (get env k (visited env k w)).0)
  warm_from_iff i zero w =
      unfold warm_from in (λ h k le lt. absurd (omega (arith, le, lt)), λ h. refl)
  warm_from_iff i (suc n) w =
      let rest = warm_from_iff (suc i) n w in
      let here = warm_from-cons i n (visited env i w) in
      (
        (λ h k le lt. elim (i-or-later i k le) [
          | inl same ↦ subst (λ j. IsHad (get env j (visited env j w)).0) same (here.0 h).0
          | inr more ↦ rest.0 (here.0 h).1 k more (omega (arith, lt))
        ]),
        (λ h. here.1 (
          h i (omega arith) (omega arith),
          rest.1 (λ k le lt. h k (omega (arith, le)) (omega (arith, lt))),
        )),
      )
    where
      i-or-later : (i k : ℕ) → i ≤ k → (i ≡ k) ⊎ (suc i ≤ k)
      i-or-later i k le = ground (arith, le)

  pub warm_iff :
      (w : World)
      → ((warm env w).0 ≡ []) ↔ ((k : ℕ) → k < count w → IsHad (get env k (visited env k w)).0)
  unfolding warm
  warm_iff w =
      let all = warm_from_iff 0 (count w) w in
      (
        (λ h k lt. all.0 h k (omega arith) (omega (arith, lt))),
        (λ h. all.1 (λ k le lt. h k (omega (arith, lt)))),
      )
