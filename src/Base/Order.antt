-- ===== src/Base/Order.antt =====
-- Comparators into `Ordering`, as `Ord::cmp` gives them: `then`, lists in lexicographic order, and
-- the laws of a total order.
use Prim.Native.Nat.{ℕ, compare, Ordering}
use mathlib.Core.Path.{◌≡◌, refl, sym}
use mathlib.Core.List.{List, [], ◌∷◌}
use native.Mathlib.Omega.{arith}

-- `Ordering::reverse`.
abbrev pub swap : Ordering → Ordering
swap Ordering.lt = Ordering.gt
swap Ordering.eq = Ordering.eq
swap Ordering.gt = Ordering.lt

-- `Ordering::then`.
abbrev pub then_cmp : Ordering → Ordering → Ordering
then_cmp Ordering.lt o = Ordering.lt
then_cmp Ordering.eq o = o
then_cmp Ordering.gt o = Ordering.gt

-- `Ord` for slices: lexicographic, a proper prefix first.
abbrev pub compare_list : List ℕ → List ℕ → Ordering
compare_list [] [] = Ordering.eq
compare_list [] (y ∷ ys) = Ordering.lt
compare_list (x ∷ xs) [] = Ordering.gt
compare_list (x ∷ xs) (y ∷ ys) = then_cmp (compare x y) (compare_list xs ys)

-- What `Ord` asks of `cmp`.
pub record IsTotalOrder {ℓ} {A : Type ℓ} (cmp : A → A → Ordering) : Type ℓ where
  pub eq_of : (a b : A) → cmp a b ≡ Ordering.eq → a ≡ b
  pub eq_self : (a : A) → cmp a a ≡ Ordering.eq
  pub swapped : (a b : A) → cmp b a ≡ swap (cmp a b)
  pub lt_trans : (a b c : A) → cmp a b ≡ Ordering.lt → cmp b c ≡ Ordering.lt → cmp a c ≡ Ordering.lt

eq_of-ℕ : (a b : ℕ) → compare a b ≡ Ordering.eq → a ≡ b
eq_of-ℕ a b h = ground arith

compare_self : (a : ℕ) → compare a a ≡ Ordering.eq
compare_self a = ground arith

compare-swap : (a b : ℕ) → compare b a ≡ swap (compare a b)
compare-swap a b = ground arith

compare-lt_trans :
    (a b c : ℕ) → compare a b ≡ Ordering.lt → compare b c ≡ Ordering.lt → compare a c ≡ Ordering.lt
compare-lt_trans a b c h k = ground arith

pub ℕ-IsTotalOrder : IsTotalOrder compare
ℕ-IsTotalOrder = record {
  eq_of = eq_of-ℕ;
  eq_self = compare_self;
  swapped = compare-swap;
  lt_trans = compare-lt_trans;
}

list-eq_of : (a b : List ℕ) → compare_list a b ≡ Ordering.eq → a ≡ b
list-eq_of [] [] h = refl
list-eq_of [] (y ∷ ys) h = cc
list-eq_of (x ∷ xs) [] h = cc
list-eq_of (x ∷ xs) (y ∷ ys) h = ground (arith, list-eq_of xs ys)

list_self : (a : List ℕ) → compare_list a a ≡ Ordering.eq
list_self [] = refl
list_self (x ∷ xs) = ground (arith, list_self xs)

list-swap : (a b : List ℕ) → compare_list b a ≡ swap (compare_list a b)
list-swap [] [] = refl
list-swap [] (y ∷ ys) = refl
list-swap (x ∷ xs) [] = refl
list-swap (x ∷ xs) (y ∷ ys) = ground (arith, list-swap xs ys)

list-lt_trans :
    (a b c : List ℕ)
    → compare_list a b ≡ Ordering.lt
    → compare_list b c ≡ Ordering.lt
    → compare_list a c ≡ Ordering.lt
list-lt_trans [] [] c h k = cc
list-lt_trans [] (y ∷ ys) [] h k = cc
list-lt_trans [] (y ∷ ys) (z ∷ zs) h k = refl
list-lt_trans (x ∷ xs) [] c h k = cc
list-lt_trans (x ∷ xs) (y ∷ ys) [] h k = cc
list-lt_trans (x ∷ xs) (y ∷ ys) (z ∷ zs) h k = ground (arith, list-lt_trans xs ys zs)

pub list-IsTotalOrder : IsTotalOrder compare_list
list-IsTotalOrder = record {
  eq_of = list-eq_of;
  eq_self = list_self;
  swapped = list-swap;
  lt_trans = list-lt_trans;
}

-- Two comparators one after the other.
abbrev pub compare_pair {ℓ κ} :
    {A : Type ℓ} {B : Type κ} → (A → A → Ordering) → (B → B → Ordering) → A × B → A × B → Ordering
compare_pair f g (a, b) (c, d) = then_cmp (f a c) (g b d)

module _ {ℓ κ} {A : Type ℓ} {B : Type κ} {f : A → A → Ordering} {g : B → B → Ordering} where
  pair-eq_of :
      IsTotalOrder f → IsTotalOrder g → (a b : A × B) → compare_pair f g a b ≡ Ordering.eq → a ≡ b
  pair-eq_of F G (a, b) (c, d) h = ground (arith, F.eq_of a c, G.eq_of b d)

  pair_self : IsTotalOrder f → IsTotalOrder g → (a : A × B) → compare_pair f g a a ≡ Ordering.eq
  pair_self F G (a, b) = ground (arith, F.eq_self a, G.eq_self b)

  pair-swap :
      IsTotalOrder f
      → IsTotalOrder g
      → (a b : A × B) → compare_pair f g b a ≡ swap (compare_pair f g a b)
  pair-swap F G (a, b) (c, d) = ground (arith, F.swapped a c, G.swapped b d)

  pair-lt_trans :
      IsTotalOrder f
      → IsTotalOrder g
      → (a b c : A × B) → compare_pair f g a b ≡ Ordering.lt
      → compare_pair f g b c ≡ Ordering.lt
      → compare_pair f g a c ≡ Ordering.lt
  pair-lt_trans F G (a, a') (b, b') (c, c') h k =
      ground (arith, F.eq_of a b, F.eq_of b c, F.lt_trans a b c, G.lt_trans a' b' c', F.eq_self a)

  pub pair-IsTotalOrder : IsTotalOrder f → IsTotalOrder g → IsTotalOrder (compare_pair f g)
  pair-IsTotalOrder F G = record {
    eq_of = pair-eq_of F G;
    eq_self = pair_self F G;
    swapped = pair-swap F G;
    lt_trans = pair-lt_trans F G;
  }

-- The order turned round, as in `sort_by(|a, b| b.cmp(a))`.
abbrev pub flipped {ℓ} : {A : Type ℓ} → (A → A → Ordering) → A → A → Ordering
flipped f a b = f b a

module _ {ℓ} {A : Type ℓ} {f : A → A → Ordering} where
  flipped-eq_of : IsTotalOrder f → (a b : A) → f b a ≡ Ordering.eq → a ≡ b
  flipped-eq_of F a b h = sym (F.eq_of b a h)

  flipped-lt_trans :
      IsTotalOrder f → (a b c : A) → f b a ≡ Ordering.lt → f c b ≡ Ordering.lt → f c a ≡ Ordering.lt
  flipped-lt_trans F a b c h k = F.lt_trans c b a k h

  pub flipped-IsTotalOrder : IsTotalOrder f → IsTotalOrder (flipped f)
  flipped-IsTotalOrder F = record {
    eq_of = flipped-eq_of F;
    eq_self = F.eq_self;
    swapped = λ a b. F.swapped b a;
    lt_trans = flipped-lt_trans F;
  }
