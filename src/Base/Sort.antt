-- ===== src/Base/Sort.antt =====
-- Rust's stable `sort_by`, as the source calls it on vectors. The sort is by insertion: any stable
-- sort gives the same list.
use Prim.Native.Nat.{Ordering}
use mathlib.Core.Path.{◌≡◌, refl, ◌∙◌}
use mathlib.Core.Logic.{◌≢◌, ∥∥₁_elim}
use mathlib.Core.List.{List, [], ◌∷◌, Perm, Permᴰ}
use mathlib.Core.List.Perm
use native.Mathlib.Omega.{arith}
use rust_poker.Base.Lists.{All}
use rust_poker.Base.Order.{IsTotalOrder, swap}

-- One round of an insertion, for the comparison of `x` with the head `y`.
unfoldable pub place {ℓ} : {A : Type ℓ} → Ordering → A → A → List A → List A → List A
place Ordering.gt x y ys rest = y ∷ rest
place _ x y ys rest = x ∷ y ∷ ys

place-perm {ℓ} :
    {A : Type ℓ} (o : Ordering) (x y : A) (ys rest : List A)
    → Perm rest (x ∷ ys)
    → Perm (place o x y ys rest) (x ∷ y ∷ ys)
unfolding place
place-perm Ordering.gt x y ys rest p = Perm.trans (Perm.cons y p) (Perm.swap x y ys)
place-perm _ x y ys rest p = Perm.rfl

All-place {ℓ κ} :
    {A : Type ℓ} (P : A → Type κ) (o : Ordering) (x y : A) (ys rest : List A)
    → (P x → All P ys → All P rest) × (All P rest → P x × All P ys)
    → (P x → All P (y ∷ ys) → All P (place o x y ys rest))
      × (All P (place o x y ys rest) → P x × All P (y ∷ ys))
unfolding place
All-place P Ordering.gt x y ys rest (f, g) =
    (λ h a. (a.0, f h a.1), λ a. ((g a.1).0, (a.0, (g a.1).1)))
All-place P _ x y ys rest (f, g) = (λ h a. (h, a), λ a. a)

module _ {ℓ} {A : Type ℓ} (cmp : A → A → Ordering) where
  unfoldable pub insert : A → List A → List A
  unfolding place
  insert x [] = x ∷ []
  insert x (y ∷ ys) = place (cmp x y) x y ys (insert x ys)

  unfoldable pub sort_by : List A → List A
  unfolding insert
  sort_by [] = []
  sort_by (x ∷ xs) = insert x (sort_by xs)

  insert-perm : (x : A) (ys : List A) → Perm (insert x ys) (x ∷ ys)
  unfolding insert
  insert-perm x [] = Perm.rfl
  insert-perm x (y ∷ ys) = place-perm (cmp x y) x y ys (insert x ys) (insert-perm x ys)

  pub sort_by-perm : (xs : List A) → Perm (sort_by xs) xs
  unfolding sort_by
  sort_by-perm [] = Perm.rfl
  sort_by-perm (x ∷ xs) = Perm.trans (insert-perm x (sort_by xs)) (Perm.cons x (sort_by-perm xs))

  All-insert {κ} :
      (P : A → Type κ) (x : A) (ys : List A)
      → (P x → All P ys → All P (insert x ys)) × (All P (insert x ys) → P x × All P ys)
  unfolding insert
  All-insert P x [] = (λ h t. (h, tt), λ a. a)
  All-insert P x (y ∷ ys) = All-place P (cmp x y) x y ys (insert x ys) (All-insert P x ys)

  -- A property of all elements holds before the sort exactly when it holds after it.
  pub All-sort_by {κ} :
      (P : A → Type κ) (xs : List A)
      → (All P xs → All P (sort_by xs)) × (All P (sort_by xs) → All P xs)
  unfolding sort_by
  All-sort_by P [] = (λ a. a, λ a. a)
  All-sort_by P (x ∷ xs) =
      let rest = All-sort_by P xs in
      let one = All-insert P x (sort_by xs) in
      (λ a. one.0 a.0 (rest.0 a.1), λ a. ((one.1 a).0, rest.1 (one.1 a).1))

  -- No element is above its right neighbour.
  abbrev pub IsSorted : List A → Type 0
  IsSorted [] = Unit
  IsSorted (x ∷ []) = Unit
  IsSorted (x ∷ y ∷ ys) = (cmp x y ≢ Ordering.gt) × IsSorted (y ∷ ys)

  module _ (swapped : (a b : A) → cmp b a ≡ swap (cmp a b)) where
    insert-IsSorted : (x : A) (ys : List A) → IsSorted ys → IsSorted (insert x ys)
    unfolding insert
    insert-IsSorted x [] h = tt
    insert-IsSorted x (y ∷ []) h = ground (arith, swapped x y)
    insert-IsSorted x (y ∷ z ∷ zs) h = ground (arith, swapped x y, insert-IsSorted x (z ∷ zs) h.1)

    pub sort_by-IsSorted : (xs : List A) → IsSorted (sort_by xs)
    unfolding sort_by
    sort_by-IsSorted [] = tt
    sort_by-IsSorted (x ∷ xs) = insert-IsSorted x (sort_by xs) (sort_by-IsSorted xs)

module _ {ℓ} {A : Type ℓ} {cmp : A → A → Ordering} (T : IsTotalOrder cmp) where
  insert_comm :
      (x y : A) (zs : List A) → insert cmp x (insert cmp y zs) ≡ insert cmp y (insert cmp x zs)
  unfolding insert
  insert_comm x y [] = ground (arith, T.swapped x y, T.eq_of x y)
  insert_comm x y (z ∷ zs) = ground (
    arith,
    insert_comm x y zs,
    T.swapped x y,
    T.swapped x z,
    T.swapped y z,
    T.eq_of x y,
    T.eq_of x z,
    T.eq_of y z,
    T.lt_trans x y z,
    T.lt_trans y x z,
    T.lt_trans x z y,
    T.lt_trans y z x,
    T.lt_trans z x y,
    T.lt_trans z y x,
  )

  sort_by_permᴰ : {xs ys : List A} → Permᴰ xs ys → sort_by cmp xs ≡ sort_by cmp ys
  unfolding sort_by
  sort_by_permᴰ Permᴰ.nil = refl
  sort_by_permᴰ (Permᴰ.cons {a = x} {b = y} e p) = ground (arith, sort_by_permᴰ p)
  sort_by_permᴰ (Permᴰ.swap {a = x} {b = y} {l = l} e e') =
      ground (arith, insert_comm x y (sort_by cmp l))
  sort_by_permᴰ (Permᴰ.trans p q) = sort_by_permᴰ p ∙ sort_by_permᴰ q

  -- The result does not depend on the order in which the elements came.
  pub sort_by-eq_of_perm :
      IsSet (List A) → {xs ys : List A} → Perm xs ys → sort_by cmp xs ≡ sort_by cmp ys
  sort_by-eq_of_perm set p = ∥∥₁_elim p (set _ _) sort_by_permᴰ
