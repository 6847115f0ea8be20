-- ===== src/Base/Sort.antt =====
-- `sort.Slice(xs, func(i, j) { key(xs[i]) < key(xs[j]) })`, as an insertion sort. Where the keys
-- differ the sorted list is the only one with its elements, so any sort gives it.
use Prim.Native.String.{String}
use mathlib.Core.Path.{◌≡◌, refl, sym, ap, ap₂, subst}
use mathlib.Core.Logic.{inl, inr, ◌≢◌, ◌↔◌}
use mathlib.Core.Bool.{Bool, true}
use mathlib.Core.List.{List, [], ◌∷◌}
use package.mt_mcp_proxy.Base.Tests.{if◌then◌else◌, Bool-cases}
use package.mt_mcp_proxy.Base.Lists.{In, All, keep}
use package.mt_mcp_proxy.Base.Member.{In-keep}
use package.mt_mcp_proxy.Base.Order.{less, less_irrefl, less_trans, less_total}

pub All-of_In : {A : Type 0} (P : A → Type 0) (xs : List A) → ((y : A) → In y xs → P y) → All P xs
All-of_In P [] h = tt
All-of_In P (x ∷ xs) h = (h x (inl refl), All-of_In P xs (λ y i. h y (inr i)))

pub In_of_All : {A : Type 0} (P : A → Type 0) (xs : List A) → All P xs → (y : A) → In y xs → P y
In_of_All P [] h y i = elim i [ ]
In_of_All P (x ∷ xs) h y (inl e) = subst P e h.0
In_of_All P (x ∷ xs) h y (inr i) = In_of_All P xs h.1 y i

module _ {A : Type 0} (key : A → String) where
  unfoldable pub insert_sorted : A → List A → List A
  insert_sorted x [] = x ∷ []
  insert_sorted x (y ∷ ys) = if less (key y) (key x) then y ∷ insert_sorted x ys else x ∷ y ∷ ys

  unfoldable pub sort_by : List A → List A
  unfolding insert_sorted
  sort_by [] = []
  sort_by (x ∷ xs) = insert_sorted x (sort_by xs)

  -- The keys grow strictly.
  abbrev pub IsSorted : List A → Type 0
  IsSorted [] = Unit
  IsSorted (x ∷ xs) = All (λ y. less (key x) (key y) ≡ true) xs × IsSorted xs

  abbrev pub IsDistinct : List A → Type 0
  IsDistinct [] = Unit
  IsDistinct (x ∷ xs) = All (λ y. key x ≢ key y) xs × IsDistinct xs

  In-insert_sorted : (x a : A) (xs : List A) → In a (insert_sorted x xs) ↔ In a (x ∷ xs)
  unfolding insert_sorted
  In-insert_sorted x a [] = (λ h. h, λ h. h)
  In-insert_sorted x a (y ∷ ys) = elim (Bool-cases (less (key y) (key x))) [
    | inl e ↦
        rw (e, insert_sorted)
          (
            (λ h. elim h [
              | inl p ↦ inr (inl p)
              | inr i ↦ elim ((In-insert_sorted x a ys).0 i) [ inl p ↦ inl p | inr j ↦ inr (inr j) ]
            ]),
            (λ h. elim h [
              | inl p ↦ inr ((In-insert_sorted x a ys).1 (inl p))
              | inr (inl p) ↦ inl p
              | inr (inr j) ↦ inr ((In-insert_sorted x a ys).1 (inr j))
            ]),
          )
    | inr e ↦ rw (e, insert_sorted) ((λ h. h), (λ h. h))
  ]

  -- Sorting keeps the elements.
  pub In-sort_by : (a : A) (xs : List A) → In a (sort_by xs) ↔ In a xs
  unfolding sort_by
  In-sort_by a [] = (λ h. h, λ h. h)
  In-sort_by a (x ∷ xs) =
      let (to, from) = In-insert_sorted x a (sort_by xs) in
      (
        (λ h. elim (to h) [ inl e ↦ inl e | inr i ↦ inr ((In-sort_by a xs).0 i) ]),
        (λ h. from (elim h [ inl e ↦ inl e | inr i ↦ inr ((In-sort_by a xs).1 i) ])),
      )

  insert_sorted-IsSorted :
      (x : A) (xs : List A)
      → All (λ y. key x ≢ key y) xs
      → IsSorted xs
      → IsSorted (insert_sorted x xs)
  unfolding insert_sorted
  insert_sorted-IsSorted x [] d h = (tt, tt)
  insert_sorted-IsSorted x (y ∷ ys) (n, d) (below, h) = elim (Bool-cases (less (key y) (key x))) [
    | inl e ↦
        rw (e, insert_sorted)
          (
            All-of_In (λ z. less (key y) (key z) ≡ true) (insert_sorted x ys)
                (λ z i. elim ((In-insert_sorted x z ys).0 i) [
                  | inl p ↦ subst (λ w. less (key y) (key w) ≡ true) p e
                  | inr j ↦ In_of_All (λ w. less (key y) (key w) ≡ true) ys below z j
                ]),
            insert_sorted-IsSorted x ys d h,
          )
    | inr e ↦
        let first : less (key x) (key y) ≡ true = less_total (key y) (key x) (λ p. n (sym p)) e in
        rw (e, insert_sorted)
          (
            (
              first,
              All-of_In (λ z. less (key x) (key z) ≡ true) ys
                  (λ z j.
                    less_trans (key x) (key y) (key z) first
                      (In_of_All (λ w. less (key y) (key w) ≡ true) ys below z j)),
            ),
            (below, h),
          )
  ]

  -- Where the keys differ, the result is strictly sorted.
  pub sort_by-IsSorted : (xs : List A) → IsDistinct xs → IsSorted (sort_by xs)
  unfolding sort_by
  sort_by-IsSorted [] d = tt
  sort_by-IsSorted (x ∷ xs) (n, d) =
      insert_sorted-IsSorted x (sort_by xs)
        (All-of_In (λ y. key x ≢ key y) (sort_by xs)
          (λ y i. In_of_All (λ y. key x ≢ key y) xs n y ((In-sort_by y xs).0 i)))
        (sort_by-IsSorted xs d)

  head_eq :
      (x y : A) (xs ys : List A)
      → IsSorted (x ∷ xs)
      → IsSorted (y ∷ ys)
      → In x (y ∷ ys)
      → In y (x ∷ xs)
      → x ≡ y
  head_eq x y xs ys (hx, sx) (hy, sy) (inl e) j = sym e
  head_eq x y xs ys (hx, sx) (hy, sy) (inr i) (inl e) = e
  head_eq x y xs ys (hx, sx) (hy, sy) (inr i) (inr j) = absurd (
      clash (
        less_trans (key x) (key y) (key x) (In_of_All (λ z. less (key x) (key z) ≡ true) xs hx y j)
          (In_of_All (λ z. less (key y) (key z) ≡ true) ys hy x i)))
    where
      clash : less (key x) (key x) ≡ true → ⊥
      clash h = cc (less_irrefl (key x))

  tail_In :
      (x : A) (xs ys : List A)
      → IsSorted (x ∷ xs)
      → ((a : A) → In a (x ∷ xs) → In a (x ∷ ys))
      → (a : A) → In a xs
      → In a ys
  tail_In x xs ys (hx, sx) h a i = go (h a (inr i))
    where
      go : In a (x ∷ ys) → In a ys
      go (inl e) = absurd (
          cc
            (less_irrefl (key x), ap key e, In_of_All (λ z. less (key x) (key z) ≡ true) xs hx a i))
      go (inr j) = j

  -- A strictly sorted list is determined by its elements.
  pub IsSorted-unique :
      (xs ys : List A) → IsSorted xs → IsSorted ys → ((a : A) → In a xs ↔ In a ys) → xs ≡ ys
  IsSorted-unique [] [] sx sy h = refl
  IsSorted-unique [] (y ∷ ys) sx sy h = absurd ((h y).1 (inl refl))
  IsSorted-unique (x ∷ xs) [] sx sy h = absurd ((h x).0 (inl refl))
  IsSorted-unique (x ∷ xs) (y ∷ ys) sx sy h =
      let e : x ≡ y = head_eq x y xs ys sx sy ((h x).0 (inl refl)) ((h y).1 (inl refl)) in
      ap₂ (λ a l. a ∷ l) e
        (IsSorted-unique xs ys sx.1 sy.1 (λ a. (
          tail_In x xs ys sx (λ b i. subst (λ w. In b (w ∷ ys)) (sym e) ((h b).0 i)) a,
          tail_In y ys xs sy (λ b i. subst (λ w. In b (w ∷ xs)) e ((h b).1 i)) a,
        )))

  -- What is left out of a strictly sorted list leaves it so.
  pub keep-IsSorted : (p : A → Bool) (xs : List A) → IsSorted xs → IsSorted (keep p xs)
  keep-IsSorted p [] h = tt
  keep-IsSorted p (x ∷ xs) (below, h) = elim (Bool-cases (p x)) [
    | inl e ↦ rw e (
      All-of_In (λ y. less (key x) (key y) ≡ true) (keep p xs)
          (λ y i. In_of_All (λ z. less (key x) (key z) ≡ true) xs below y ((In-keep p xs y).0 i).0),
      keep-IsSorted p xs h,
    )
    | inr e ↦ rw e (keep-IsSorted p xs h)
  ]
