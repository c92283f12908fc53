-- ===== src/Base/Max.antt =====
-- Rust's `max_by`: the last of the greatest elements.
use Prim.Native.Nat.{Ordering}
use mathlib.Core.Path.{◌≡◌, refl}
use mathlib.Core.Logic.{◌≢◌, ◌⊎◌, inl, inr}
use mathlib.Core.List.{List, [], ◌∷◌}
use mathlib.Core.Option.{Option, none, some}
use native.Mathlib.Omega.{arith}
use rust_poker.Base.Lists.{All}
use rust_poker.Base.Order.{IsTotalOrder}

abbrev pub greater {ℓ} : {A : Type ℓ} → Ordering → A → A → A
greater Ordering.gt x y = x
greater _ x y = y

module _ {ℓ} {A : Type ℓ} (cmp : A → A → Ordering) where
  unfoldable pub max_from : A → List A → A
  max_from x [] = x
  max_from x (y ∷ ys) = max_from (greater (cmp x y) x y) ys

  unfoldable pub max_by : List A → Option A
  unfolding max_from
  max_by [] = none
  max_by (x ∷ xs) = some (max_from x xs)

-- Membership, with the place kept.
abbrev pub Among : {A : Type 0} → A → List A → Type 0
Among a [] = ⊥
Among a (x ∷ xs) = (x ≡ a) ⊎ Among a xs

module _ {A B : Type 0} {f : B → B → Ordering} (T : IsTotalOrder f) (key : A → B) where
  abbrev pub by_key : A → A → Ordering
  by_key a b = f (key a) (key b)

  le_trans_cmp : (a b c : B) → f a b ≢ Ordering.gt → f b c ≢ Ordering.gt → f a c ≢ Ordering.gt
  le_trans_cmp a b c h k = ground (arith, T.eq_of a b, T.eq_of b c, T.lt_trans a b c, T.eq_self a)

  le_self_cmp : (a : B) → f a a ≢ Ordering.gt
  le_self_cmp a = ground (arith, T.eq_self a)

  le-greater :
      (x y : A)
      → (by_key x (greater (by_key x y) x y) ≢ Ordering.gt)
        × (by_key y (greater (by_key x y) x y) ≢ Ordering.gt)
  le-greater x y = ground (arith, T.eq_self (key x), T.eq_self (key y), T.swapped (key x) (key y))

  max_from-ge : (x : A) (ys : List A) → by_key x (max_from by_key x ys) ≢ Ordering.gt
  unfolding max_from
  max_from-ge x [] = le_self_cmp (key x)
  max_from-ge x (y ∷ ys) =
      le_trans_cmp (key x) (key (greater (by_key x y) x y)) _ (le-greater x y).0
        (max_from-ge (greater (by_key x y) x y) ys)

  max_from-All : (x : A) (ys : List A) → All (λ y. by_key y (max_from by_key x ys) ≢ Ordering.gt) ys
  unfolding max_from
  max_from-All x [] = tt
  max_from-All x (y ∷ ys) = (
    le_trans_cmp (key y) (key (greater (by_key x y) x y)) _ (le-greater x y).1
        (max_from-ge (greater (by_key x y) x y) ys),
    max_from-All (greater (by_key x y) x y) ys,
  )

  greater-Among :
      (x y m : A) (ys : List A) → Among m (greater (by_key x y) x y ∷ ys) → Among m (x ∷ y ∷ ys)
  greater-Among x y m ys a = go (by_key x y) a
    where
      go : (o : Ordering) → Among m (greater o x y ∷ ys) → Among m (x ∷ y ∷ ys)
      go Ordering.gt (inl e) = inl e
      go Ordering.gt (inr r) = inr (inr r)
      go _ a = inr a

  max_from-Among : (x : A) (ys : List A) → Among (max_from by_key x ys) (x ∷ ys)
  unfolding max_from
  max_from-Among x [] = inl refl
  max_from-Among x (y ∷ ys) = greater-Among x y _ ys (max_from-Among (greater (by_key x y) x y) ys)

  -- `max_by` on a list that is not empty gives an element of it that none is above.
  pub max_by_lem :
      (xs : List A)
      → xs ≢ []
      → (m : A) × (max_by by_key xs ≡ some m) × Among m xs × All (λ y. by_key y m ≢ Ordering.gt) xs
  unfolding max_by
  max_by_lem [] n = absurd (n refl)
  max_by_lem (x ∷ xs) n =
      (max_from by_key x xs, refl, max_from-Among x xs, (max_from-ge x xs, max_from-All x xs))
