-- ===== src/Base/Traverse.antt =====
-- Loops that map a list by a step that may fail, and stop at the first error.
use mathlib.Core.Path.{◌≡◌, refl, sym, subst, ◌∙◌}
use mathlib.Core.Logic.{◌↔◌}
use mathlib.Core.List.{List, [], ◌∷◌}
use package.mt_mcp_proxy.Base.Tests.{Result, ok, err, ◌>>=◌, >>=-eq-ok, ok-injective, wrap_error}

-- The lists have one length, and their elements are related in order.
abbrev pub All2 {ℓ κ} : {A : Type ℓ} {B : Type κ} → (A → B → Type 0) → List A → List B → Type 0
All2 R [] [] = Unit
All2 R (x ∷ xs) (y ∷ ys) = R x y × All2 R xs ys
All2 R _ _ = ⊥

-- Inversion of a bind whose first step has its error wrapped.
pub wrapped-eq-ok {ℓ κ μ ν} :
    {E : Type ℓ} {F : Type κ} {A : Type μ} {B : Type ν} (f : E → F) (r : Result E A)
    (next : A → Result F B) {b : B}
    → (wrap_error f r >>= next) ≡ ok b
    → (a : A) × (r ≡ ok a) × (next a ≡ ok b)
wrapped-eq-ok f (ok a) next h = (a, refl, h)
wrapped-eq-ok f (err e) next h = cc

module _ {ℓ κ μ} {E : Type ℓ} {A : Type κ} {B : Type μ} (R : A → B → Type 0) (f : A → Result E B)
    (loop : List A → Result E (List B)) (loop-nil : loop [] ≡ ok [])
    (loop-cons : (x : A) (xs : List A)
      → loop (x ∷ xs) ≡ (f x >>= λ y. loop xs >>= λ ys. ok (y ∷ ys)))
    (f_iff : (x : A) (y : B) → (f x ≡ ok y) ↔ R x y) where
  step_eq :
      (x : A) (xs : List A) (y : B) (ys : List B)
      → f x ≡ ok y
      → loop xs ≡ ok ys
      → loop (x ∷ xs) ≡ ok (y ∷ ys)
  step_eq x xs y ys first rest = loop-cons x xs ∙ rw (first, rest) refl

  sound : (xs : List A) (ys : List B) → loop xs ≡ ok ys → All2 R xs ys
  sound [] [] h = tt
  sound [] (y ∷ ys) h = cc (loop-nil)
  sound (x ∷ xs) ys h =
      let (y, first, h) = >>=-eq-ok (f x) _ (sym (loop-cons x xs) ∙ h) in
      let (tail, rest, h) = >>=-eq-ok (loop xs) _ h in
      let same : y ∷ tail ≡ ys = ok-injective h in
      subst (All2 R (x ∷ xs)) same ((f_iff x y).0 first, sound xs tail rest)

  complete : (xs : List A) (ys : List B) → All2 R xs ys → loop xs ≡ ok ys
  complete [] [] h = loop-nil
  complete [] (y ∷ ys) h = elim h [ ]
  complete (x ∷ xs) [] h = elim h [ ]
  complete (x ∷ xs) (y ∷ ys) (r, h) = step_eq x xs y ys ((f_iff x y).1 r) (complete xs ys h)

  pub traverse_iff : (xs : List A) (ys : List B) → (loop xs ≡ ok ys) ↔ All2 R xs ys
  traverse_iff xs ys = (sound xs ys, complete xs ys)
