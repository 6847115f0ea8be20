-- ===== src/Base/Dict.antt =====
-- Go's `map[string]V` as a list of entries with distinct keys. Go ranges over a map in no fixed
-- order; here `range` goes through the list, and what depends on the order is said where it does.
use Prim.Native.String.{String}
use mathlib.Core.Path.{◌≡◌, refl}
use mathlib.Core.Bool.{Bool, true, false}
use mathlib.Core.Option.{Option, none, some}
use mathlib.Core.List.{List, [], ◌∷◌}
use native.Mathlib.Omega.{arith}
use text.Mathlib.Text.{◌==◌}
use text.Mathlib.TextEquality.{eq_iff}
use package.mt_mcp_proxy.Base.Tests.{if◌then◌else◌}

abbrev pub Dict {ℓ} : Type ℓ → Type ℓ
Dict V = List (String × V)

module _ {ℓ} {V : Type ℓ} where
  -- `v, ok := m[k]`
  unfoldable pub lookup : String → Dict V → Option V
  lookup wanted [] = none
  lookup wanted ((key, value) ∷ rest) = if key == wanted then some value else lookup wanted rest

  -- `m[k] = v`
  unfoldable pub insert : String → V → Dict V → Dict V
  insert new value [] = (new, value) ∷ []
  insert new value ((key, old) ∷ rest) =
      if key == new then (new, value) ∷ rest else (key, old) ∷ insert new value rest

  -- `delete(m, k)`
  unfoldable pub delete : String → Dict V → Dict V
  delete k [] = []
  delete k ((j, v) ∷ m) = let rest = delete k m in if j == k then rest else (j, v) ∷ rest

  -- `_, ok := m[k]`
  unfoldable pub has : String → Dict V → Bool
  unfolding lookup
  has k m = elim (lookup k m) [ none ↦ false | some v ↦ true ]

  unfoldable pub values : Dict V → List V
  values [] = []
  values ((k, v) ∷ m) = v ∷ values m

  unfoldable pub keys : Dict V → List String
  keys [] = []
  keys ((k, v) ∷ m) = k ∷ keys m

  -- No two entries have one key.
  abbrev pub IsNodup : Dict V → Type ℓ
  IsNodup [] = Unit
  IsNodup ((k, v) ∷ m) = (lookup k m ≡ none) × IsNodup m

  pub lookup-insert :
      (new wanted : String) (value : V) (dict : Dict V)
      → lookup wanted (insert new value dict)
        ≡ (if new == wanted then some value else lookup wanted dict)
  unfolding lookup insert
  lookup-insert new wanted value [] = refl
  lookup-insert new wanted value ((key, old) ∷ rest) =
      let ih = lookup-insert new wanted value rest in
      ground (arith, ih, eq_iff key new, eq_iff key wanted, eq_iff new wanted)

  pub lookup-delete :
      (k j : String) (m : Dict V) → lookup j (delete k m) ≡ (if k == j then none else lookup j m)
  unfolding lookup delete
  lookup-delete k j [] = ground arith
  lookup-delete k j ((i, v) ∷ m) =
      ground (arith, lookup-delete k j m, eq_iff i k, eq_iff i j, eq_iff k j)

  pub insert-IsNodup : (k : String) (v : V) (m : Dict V) → IsNodup m → IsNodup (insert k v m)
  unfolding insert lookup
  insert-IsNodup k v [] h = (refl, tt)
  insert-IsNodup k v ((j, w) ∷ m) (fresh, h) =
      ground (arith, insert-IsNodup k v m h, lookup-insert k j v m, eq_iff j k, eq_iff k j)

  pub delete-IsNodup : (k : String) (m : Dict V) → IsNodup m → IsNodup (delete k m)
  unfolding delete lookup
  delete-IsNodup k [] h = tt
  delete-IsNodup k ((j, w) ∷ m) (fresh, h) =
      ground (arith, delete-IsNodup k m h, lookup-delete k j m, eq_iff j k, eq_iff k j)

module _ {ℓ} {V : Type ℓ} (p : V → Bool) where
  -- `for k, v := range m { if !p(v) { delete(m, k) } }`
  unfoldable pub retain : Dict V → Dict V
  retain [] = []
  retain ((k, v) ∷ m) = let rest = retain m in if p v then (k, v) ∷ rest else rest

  abbrev pub retained : Option V → Option V
  retained none = none
  retained (some v) = if p v then some v else none

  retain_absent : (k : String) (m : Dict V) → lookup k m ≡ none → lookup k (retain m) ≡ none
  unfolding retain lookup
  retain_absent k [] h = refl
  retain_absent k ((j, v) ∷ m) h = ground (arith, retain_absent k m)

  pub lookup-retain :
      (k : String) (m : Dict V) → IsNodup m → lookup k (retain m) ≡ retained (lookup k m)
  unfolding retain lookup
  lookup-retain k [] h = refl
  lookup-retain k ((j, v) ∷ m) (fresh, h) =
      ground (arith, lookup-retain k m h, retain_absent k m, eq_iff j k)

  pub retain-IsNodup : (m : Dict V) → IsNodup m → IsNodup (retain m)
  unfolding retain
  retain-IsNodup [] h = tt
  retain-IsNodup ((k, v) ∷ m) (fresh, h) =
      ground (arith, retain-IsNodup m h, retain_absent k m fresh)
