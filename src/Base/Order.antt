-- ===== src/Base/Order.antt =====
-- The order of Go strings, by which `sort.Slice` and `sort.Strings` sort: it is strict and total.
use Prim.Native.Nat.{compare as compare_nat, Ordering}
use Prim.Native.Char.{Char, code}
use Prim.Native.String.{String, [], ◌∷◌, compare}
use Prim.Native.String.compare
use mathlib.Core.Path.{◌≡◌, refl}
use mathlib.Core.Logic.{◌≢◌}
use mathlib.Core.Bool.{Bool, true, false}
use native.Mathlib.Omega.{arith}
use text.Mathlib.TextEquality.{Char-path}
use text.Mathlib.TextPositions.{compare_refl}

-- `a < b`
unfoldable pub less : String → String → Bool
less a b = elim (compare a b) [ Ordering.lt ↦ true | _ ↦ false ]

less-nil-cons : (d : Char) (t : String) → less [] (d ∷ t) ≡ true
unfolding less
less-nil-cons d t = rw (compare.nil-cons d t, less)

less-nil : (s : String) → less s [] ≡ false
unfolding less
less-nil [] = refl
less-nil (c ∷ s) = rw (compare.cons-nil c s, less)

abbrev first_of_less : Ordering → Bool → Bool
first_of_less Ordering.lt b = true
first_of_less Ordering.eq b = b
first_of_less Ordering.gt b = false

then_less :
    (o p : Ordering)
    → (elim (Prim.Native.String.then o p) [ Ordering.lt ↦ true | _ ↦ false ])
      ≡ first_of_less o (elim p [ Ordering.lt ↦ true | _ ↦ false ])
then_less Ordering.lt p = refl
then_less Ordering.eq p = refl
then_less Ordering.gt p = refl

less-cons :
    (c d : Char) (s t : String)
    → less (c ∷ s) (d ∷ t) ≡ first_of_less (compare_nat (code c) (code d)) (less s t)
unfolding less
less-cons c d s t =
    rw (compare.cons-cons c d s t, less) (then_less (compare_nat (code c) (code d)) (compare s t))

pub less_irrefl : (a : String) → less a a ≡ false
unfolding less
less_irrefl a = rw (compare_refl a, less)

pub less_trans : (a b c : String) → less a b ≡ true → less b c ≡ true → less a c ≡ true
less_trans a b [] h k = cc (less-nil b)
less_trans [] b (e ∷ c) h k = less-nil-cons e c
less_trans (x ∷ a) [] (e ∷ c) h k = cc (less-nil (x ∷ a))
less_trans (x ∷ a) (y ∷ b) (z ∷ c) h k =
    ground (arith, less-cons x y a b, less-cons y z b c, less-cons x z a c, less_trans a b c)

pub less_total : (a b : String) → a ≢ b → less a b ≡ false → less b a ≡ true
less_total [] [] n h = absurd (n refl)
less_total [] (d ∷ b) n h = cc (less-nil-cons d b)
less_total (c ∷ a) [] n h = less-nil-cons c a
less_total (c ∷ a) (d ∷ b) n h =
    ground (arith, less-cons c d a b, less-cons d c b a, less_total a b, Char-path c d)
