-- ===== src/Base/Member.antt =====
-- Membership against the Boolean tests and the filtering loop.
use Prim.Native.String.{String}
use mathlib.Core.Path.{◌≡◌, refl, sym, subst}
use mathlib.Core.Logic.{inl, inr, ◌↔◌}
use mathlib.Core.Bool.{Bool, true, false}
use mathlib.Core.List.{List, [], ◌∷◌, ◌++◌}
use native.Mathlib.Omega.{arith}
use text.Mathlib.TextEquality.{eq_iff}
use package.mt_mcp_proxy.Base.Tests.{Bool-cases}
use package.mt_mcp_proxy.Base.Lists.{In, any, all, keep, contains, is_empty}

pub contains_iff : (ss : List String) (v : String) → (contains ss v ≡ true) ↔ In v ss
contains_iff [] v = (λ h. cc, λ h. elim h [ ])
contains_iff (s ∷ ss) v = ground (arith, eq_iff s v, contains_iff ss v)

pub any-contains :
    (gs ts : List String) → (any (contains gs) ts ≡ true) ↔ ((g : String) × In g ts × In g gs)
any-contains gs [] = (λ h. cc, λ h. elim h.1 [ ])
any-contains gs (t ∷ ts) = (
  (λ h. elim (Bool-cases (contains gs t)) [
    | inl e ↦ (t, inl refl, (contains_iff gs t).0 e)
    | inr e ↦ let (g, i, j) = (any-contains gs ts).0 (rw e at h) in (g, inr i, j)
  ]),
  (λ h. elim (Bool-cases (contains gs t)) [
    | inl e ↦ rw e
    | inr e ↦ rw e (elim h.1 [
      | inl p ↦ cc (e, (contains_iff gs t).1 (subst (λ w. In w gs) (sym p) h.2))
      | inr i ↦ (any-contains gs ts).1 (h.0, i, h.2)
    ])
  ]),
)

pub In-keep :
    {A : Type 0} (p : A → Bool) (xs : List A) (a : A) → In a (keep p xs) ↔ (In a xs × (p a ≡ true))
In-keep p [] a = (λ h. elim h [ ], λ h. elim h.0 [ ])
In-keep p (x ∷ xs) a = elim (Bool-cases (p x)) [
  | inl e ↦ rw e (
    (λ h. elim h [
      | inl q ↦ (inl q, subst (λ w. p w ≡ true) q e)
      | inr i ↦ let (j, b) = (In-keep p xs a).0 i in (inr j, b)
    ]),
    (λ h. elim h.0 [ inl q ↦ inl q | inr i ↦ inr ((In-keep p xs a).1 (i, h.1)) ]),
  )
  | inr e ↦ rw e (
    (λ i. let (j, b) = (In-keep p xs a).0 i in (inr j, b)),
    (λ h. elim h.0 [
      | inl q ↦ cc (subst (λ w. p w ≡ false) q e, h.1)
      | inr i ↦ (In-keep p xs a).1 (i, h.1)
    ]),
  )
]

module _ {A : Type 0} where
  pub In-left : (a : A) (xs ys : List A) → In a xs → In a (xs ++ ys)
  In-left a [] ys i = elim i [ ]
  In-left a (x ∷ xs) ys (inl p) = inl p
  In-left a (x ∷ xs) ys (inr i) = inr (In-left a xs ys i)

  pub In-last : (a : A) (xs : List A) → In a (xs ++ a ∷ [])
  In-last a [] = inl refl
  In-last a (x ∷ xs) = inr (In-last a xs)

  pub In-all : (p : A → Bool) (xs : List A) (a : A) → all p xs ≡ true → In a xs → p a ≡ true
  In-all p [] a h i = elim i [ ]
  In-all p (x ∷ xs) a h (inl e) = subst (λ w. p w ≡ true) e (ground arith)
  In-all p (x ∷ xs) a h (inr i) = In-all p xs a (ground arith) i

pub is_empty_iff {ℓ} : {A : Type ℓ} (xs : List A) → (is_empty xs ≡ true) ↔ (xs ≡ [])
is_empty_iff [] = (λ h. refl, λ h. refl)
is_empty_iff (x ∷ xs) = (λ h. cc, λ h. cc)
