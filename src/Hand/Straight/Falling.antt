-- ===== src/Hand/Straight/Falling.antt =====
-- Sorting, turning round and `dedup` in `check_straight` of Poker/src/hand.rs: the order of the
-- result and which values occur in it.
use mathlib.Core.List.{reverse-cons}
use rust_poker.Base.{
  ℕ, ◌≤◌, ◌<◌, ◌≡◌, refl, sym, ◌∙◌, List, [], ◌∷◌, ◌++◌, false, ◌||◌, map, reverse, compare, ◌==◌,
  if◌then◌else◌, arith, contains, All,
}
use rust_poker.Base.Sort.{sort_by, insert}
use rust_poker.Hand.Straight.{ace_high, dedup_from, dedup, descending, unique_values}

-- Each element is above all that follow.
abbrev pub Falls : List ℕ → Type 0
Falls [] = Unit
Falls (x ∷ xs) = All (λ y. y < x) xs × Falls xs

abbrev FallsWeakly : List ℕ → Type 0
FallsWeakly [] = Unit
FallsWeakly (x ∷ xs) = All (λ y. y ≤ x) xs × FallsWeakly xs

abbrev pub Rises : List ℕ → Type 0
Rises [] = Unit
Rises (x ∷ xs) = All (λ y. x ≤ y) xs × Rises xs

All-below_trans : (x z : ℕ) (xs : List ℕ) → x ≤ z → All (λ y. z ≤ y) xs → All (λ y. x ≤ y) xs
All-below_trans x z [] h a = tt
All-below_trans x z (y ∷ ys) h a = (omega arith, All-below_trans x z ys h a.1)

All-insert :
    (b x : ℕ) (ys : List ℕ) → b ≤ x → All (λ y. b ≤ y) ys → All (λ y. b ≤ y) (insert compare x ys)
unfolding insert
All-insert b x [] h a = (h, tt)
All-insert b x (y ∷ ys) h a = ground (arith, All-insert b x ys h a.1)

insert-Rises : (x : ℕ) (ys : List ℕ) → Rises ys → Rises (insert compare x ys)
unfolding insert
insert-Rises x [] r = (tt, tt)
insert-Rises x (y ∷ ys) r =
    ground (arith, insert-Rises x ys r.1, All-insert y x ys, All-below_trans x y ys)

pub sort_by-Rises : (xs : List ℕ) → Rises (sort_by compare xs)
unfolding sort_by
sort_by-Rises [] = tt
sort_by-Rises (x ∷ xs) = insert-Rises x (sort_by compare xs) (sort_by-Rises xs)

All-append_one : (P : ℕ → Type 0) (xs : List ℕ) (x : ℕ) → All P xs → P x → All P (xs ++ x ∷ [])
All-append_one P [] x a p = (p, tt)
All-append_one P (y ∷ ys) x a p = (a.0, All-append_one P ys x a.1 p)

All-reverse : (P : ℕ → Type 0) (xs : List ℕ) → All P xs → All P (reverse xs)
All-reverse P [] a = tt
All-reverse P (x ∷ xs) a =
    rw (reverse-cons x xs) (All-append_one P (reverse xs) x (All-reverse P xs a.1) a.0)

FallsWeakly-append_one :
    (xs : List ℕ) (x : ℕ) → FallsWeakly xs → All (λ y. x ≤ y) xs → FallsWeakly (xs ++ x ∷ [])
FallsWeakly-append_one [] x f a = (tt, tt)
FallsWeakly-append_one (y ∷ ys) x f a =
    (All-append_one (λ z. z ≤ y) ys x f.0 a.0, FallsWeakly-append_one ys x f.1 a.1)

reverse-FallsWeakly : (xs : List ℕ) → Rises xs → FallsWeakly (reverse xs)
reverse-FallsWeakly [] r = tt
reverse-FallsWeakly (x ∷ xs) r = rw (reverse-cons x xs) (
    FallsWeakly-append_one (reverse xs) x (reverse-FallsWeakly xs r.1)
      (All-reverse (λ y. x ≤ y) xs r.0))

descending-FallsWeakly : (xs : List ℕ) → FallsWeakly (descending xs)
descending-FallsWeakly xs = reverse-FallsWeakly (sort_by compare xs) (sort_by-Rises xs)

All-lt_trans : (x a : ℕ) (xs : List ℕ) → x ≤ a → All (λ y. y < x) xs → All (λ y. y < a) xs
All-lt_trans x a [] h l = tt
All-lt_trans x a (y ∷ ys) h l = (omega arith, All-lt_trans x a ys h l.1)

dedup_from-Falls :
    (a : ℕ) (xs : List ℕ)
    → All (λ y. y ≤ a) xs
    → FallsWeakly xs
    → All (λ y. y < a) (dedup_from a xs) × Falls (dedup_from a xs)
dedup_from-Falls a [] h f = (tt, tt)
dedup_from-Falls a (x ∷ xs) h f = ground (
  arith,
  dedup_from-Falls a xs h.1 f.1,
  dedup_from-Falls x xs f.0 f.1,
  All-lt_trans x a (dedup_from x xs),
)

dedup-Falls : (xs : List ℕ) → FallsWeakly xs → Falls (dedup xs)
dedup-Falls [] f = tt
dedup-Falls (x ∷ xs) f = dedup_from-Falls x xs f.0 f.1

pub unique_values-Falls : (values : List ℕ) → Falls (unique_values values)
unfolding unique_values
unique_values-Falls values =
    dedup-Falls _ (descending-FallsWeakly (map ace_high (descending values)))

-- Sorting, turning round and removing repetitions keep which values occur.
contains-insert : (a x : ℕ) (ys : List ℕ) → contains (insert compare x ys) a ≡ contains (x ∷ ys) a
unfolding insert
contains-insert a x [] = refl
contains-insert a x (y ∷ ys) = ground (arith, contains-insert a x ys)

contains-sort_by : (a : ℕ) (xs : List ℕ) → contains (sort_by compare xs) a ≡ contains xs a
unfolding sort_by
contains-sort_by a [] = refl
contains-sort_by a (x ∷ xs) =
    ground (arith, contains-insert a x (sort_by compare xs), contains-sort_by a xs)

contains-append_one : (a x : ℕ) (xs : List ℕ) → contains (xs ++ x ∷ []) a ≡ contains (x ∷ xs) a
contains-append_one a x [] = refl
contains-append_one a x (y ∷ ys) = ground (arith, contains-append_one a x ys)

contains-reverse : (a : ℕ) (xs : List ℕ) → contains (reverse xs) a ≡ contains xs a
contains-reverse a [] = refl
contains-reverse a (x ∷ xs) =
    rw (reverse-cons x xs)
      (contains-append_one a x (reverse xs) ∙ ground (arith, contains-reverse a xs))

contains-descending : (a : ℕ) (xs : List ℕ) → contains (descending xs) a ≡ contains xs a
contains-descending a xs = contains-reverse a (sort_by compare xs) ∙ contains-sort_by a xs

contains-dedup_from :
    (a b : ℕ) (xs : List ℕ) → contains (b ∷ dedup_from b xs) a ≡ contains (b ∷ xs) a
contains-dedup_from a b [] = refl
contains-dedup_from a b (x ∷ xs) =
    ground (arith, contains-dedup_from a b xs, contains-dedup_from a x xs)

contains-dedup : (a : ℕ) (xs : List ℕ) → contains (dedup xs) a ≡ contains xs a
contains-dedup a [] = refl
contains-dedup a (x ∷ xs) = contains-dedup_from a x xs

contains-map-ace_high :
    (a : ℕ) (xs : List ℕ)
    → contains (map ace_high xs) a ≡ (
        if a == 14
        then contains xs 14 || contains xs 1
        else if a == 1
        then false
        else contains xs a)
contains-map-ace_high a [] = ground arith
contains-map-ace_high a (x ∷ xs) = ground (arith, contains-map-ace_high a xs)

pub contains-unique_values :
    (a : ℕ) (values : List ℕ) → contains (unique_values values) a ≡ contains (map ace_high values) a
unfolding unique_values
contains-unique_values a values =
    contains-dedup a (descending (map ace_high (descending values)))
    ∙ contains-descending a (map ace_high (descending values))
    ∙ contains-map-ace_high a (descending values)
    ∙ rw (contains-descending 14 values, contains-descending 1 values, contains-descending a values)
        (sym (contains-map-ace_high a values))

All-dedup_from : (P : ℕ → Type 0) (a : ℕ) (xs : List ℕ) → All P xs → All P (dedup_from a xs)
All-dedup_from P a [] h = tt
All-dedup_from P a (x ∷ xs) h = ground (arith, All-dedup_from P a xs h.1, All-dedup_from P x xs h.1)

dedup_from-Rises : (a : ℕ) (xs : List ℕ) → Rises xs → Rises (dedup_from a xs)
dedup_from-Rises a [] r = tt
dedup_from-Rises a (x ∷ xs) r = ground (
  arith,
  dedup_from-Rises a xs r.1,
  dedup_from-Rises x xs r.1,
  All-dedup_from (λ y. x ≤ y) x xs r.0,
)

pub dedup-Rises : (xs : List ℕ) → Rises xs → Rises (dedup xs)
dedup-Rises [] r = tt
dedup-Rises (x ∷ xs) r = (All-dedup_from (λ y. x ≤ y) x xs r.0, dedup_from-Rises x xs r.1)
