-- ===== src/Hand/Evaluate/Top.antt =====
-- The first two entries of `count_vec` in Poker/src/hand.rs: the most frequent value and the most
-- frequent of the others.
use mathlib.Core.List.{map}
use native.Mathlib.Decide.{ℕ_discrete}
use rust_poker.Base.{
  ℕ, suc, ◌≤◌, ◌≡◌, ◌≢◌, refl, sym, ap, ◌∙◌, List, [], ◌∷◌, arith, ◌==◌, occurs, Bool, false, ◌||◌,
  if◌then◌else◌, compare, Ordering, All, ==_refl, subst,
}
use rust_poker.Base.Order.{flipped, compare_pair, swap}
use rust_poker.Base.Sort.{insert, sort_by, sort_by-IsSorted, IsSorted, All-sort_by}
use rust_poker.Hand.Evaluate.{bump, count_into, count_values, count_vec, swap_entry}
use rust_poker.Hand.Evaluate.Counts.{count_of, count_of-count_values}

abbrev has_key : ℕ → List (ℕ × ℕ) → Bool
has_key a [] = false
has_key a ((w, n) ∷ m) = (w == a) || has_key a m

-- The keys of a map differ.
abbrev Distinct : List (ℕ × ℕ) → Type 0
Distinct [] = Unit
Distinct ((w, n) ∷ m) = (has_key w m ≡ false) × Distinct m

has_key-bump : (a v : ℕ) (m : List (ℕ × ℕ)) → has_key a (bump v m) ≡ ((v == a) || has_key a m)
unfolding bump
has_key-bump a v [] = refl
has_key-bump a v ((w, n) ∷ m) = ground (arith, has_key-bump a v m)

bump-Distinct : (v : ℕ) (m : List (ℕ × ℕ)) → Distinct m → Distinct (bump v m)
unfolding bump
bump-Distinct v [] d = (refl, tt)
bump-Distinct v ((w, n) ∷ m) d = ground (arith, bump-Distinct v m d.1, has_key-bump w v m)

count_into-Distinct : (m : List (ℕ × ℕ)) (vs : List ℕ) → Distinct m → Distinct (count_into m vs)
unfolding count_into
count_into-Distinct m [] d = d
count_into-Distinct m (v ∷ vs) d = count_into-Distinct (bump v m) vs (bump-Distinct v m d)

-- The entries in front of a map with other keys stay what they are.
entries_behind :
    (w n : ℕ) (m l : List (ℕ × ℕ))
    → has_key w l ≡ false
    → All (λ e. count_of e.0 m ≡ e.1) l
    → All (λ e. count_of e.0 ((w, n) ∷ m) ≡ e.1) l
entries_behind w n m [] h a = tt
entries_behind w n m ((x, k) ∷ l) h a =
    (ground (arith, a.0), entries_behind w n m l (ground arith) a.1)

Distinct-entries : (m : List (ℕ × ℕ)) → Distinct m → All (λ e. count_of e.0 m ≡ e.1) m
Distinct-entries [] d = tt
Distinct-entries ((w, n) ∷ m) d =
    (ground arith, entries_behind w n m m d.0 (Distinct-entries m d.1))

abbrev ranked : (ℕ × ℕ) → (ℕ × ℕ) → Ordering
ranked = flipped (compare_pair compare compare)

ranked-swapped : (a b : ℕ × ℕ) → ranked b a ≡ swap (ranked a b)
ranked-swapped (a, b) (c, d) = ground arith

weaken_max : (d c : ℕ) (l : List (ℕ × ℕ)) → d ≤ c → All (λ e. e.0 ≤ d) l → All (λ e. e.0 ≤ c) l
weaken_max d c [] h a = tt
weaken_max d c (e ∷ l) h a = (omega arith, weaken_max d c l h a.1)

-- The first count of a sorted list is the largest.
first_count_max : (c v : ℕ) (l : List (ℕ × ℕ)) → IsSorted ranked ((c, v) ∷ l) → All (λ e. e.0 ≤ c) l
first_count_max c v [] s = tt
first_count_max c v ((d, w) ∷ l) s =
    let le : d ≤ c = ground arith in (le, weaken_max d c l le (first_count_max d w l s.1))

All-swap :
    (P : ℕ × ℕ → Type 0) (m : List (ℕ × ℕ))
    → (All (λ e. P (swap_entry e)) m → All P (map swap_entry m))
      × (All P (map swap_entry m) → All (λ e. P (swap_entry e)) m)
All-swap P [] = (λ a. a, λ a. a)
All-swap P (e ∷ m) = let rest = All-swap P m in (λ a. (a.0, rest.0 a.1), λ a. (a.0, rest.1 a.1))

-- A property of the entries as (count, value), before and after the sort.
All-count_vec :
    (P : ℕ × ℕ → Type 0) (m : List (ℕ × ℕ))
    → (All (λ e. P (swap_entry e)) m → All P (count_vec m))
      × (All P (count_vec m) → All (λ e. P (swap_entry e)) m)
unfolding count_vec
All-count_vec P m =
    let sorted = All-sort_by ranked P (map swap_entry m) in
    let swapped = All-swap P m in (λ a. sorted.0 (swapped.0 a), λ a. swapped.1 (sorted.1 a))

count_of-bound : (w c : ℕ) (m : List (ℕ × ℕ)) → All (λ e. e.1 ≤ c) m → count_of w m ≤ c
count_of-bound w c [] a = omega arith
count_of-bound w c ((x, n) ∷ m) a = ground (arith, count_of-bound w c m a.1)

count_of-bound_but :
    (v w c : ℕ) (m : List (ℕ × ℕ)) → w ≢ v → All (λ e. e.0 ≢ v → e.1 ≤ c) m → count_of w m ≤ c
count_of-bound_but v w c [] n a = omega arith
count_of-bound_but v w c ((x, k) ∷ m) n a = elim (ℕ_discrete x w) [
  | yes e ↦ rw (e, ==_refl w) (a.0 (λ f. n (sym e ∙ f)))
  | no k' ↦ ground (arith, count_of-bound_but v w c m n a.1)
]

-- How many entries are for the value `v`.
abbrev keyed : ℕ → List (ℕ × ℕ) → ℕ
keyed v [] = 0
keyed v ((c, w) ∷ l) = if w == v then suc (keyed v l) else keyed v l

keyed-insert :
    (v : ℕ) (e : ℕ × ℕ) (l : List (ℕ × ℕ)) → keyed v (insert ranked e l) ≡ keyed v (e ∷ l)
unfolding insert
keyed-insert v e [] = refl
keyed-insert v (c, w) ((d, x) ∷ l) = ground (arith, keyed-insert v (c, w) l)

keyed-sort_by : (v : ℕ) (l : List (ℕ × ℕ)) → keyed v (sort_by ranked l) ≡ keyed v l
unfolding sort_by
keyed-sort_by v [] = refl
keyed-sort_by v ((c, w) ∷ l) =
    ground (arith, keyed-insert v (c, w) (sort_by ranked l), keyed-sort_by v l)

keyed-absent : (v : ℕ) (m : List (ℕ × ℕ)) → has_key v m ≡ false → keyed v (map swap_entry m) ≡ 0
keyed-absent v [] h = refl
keyed-absent v ((w, n) ∷ m) h = ground (arith, keyed-absent v m)

keyed-Distinct : (v : ℕ) (m : List (ℕ × ℕ)) → Distinct m → keyed v (map swap_entry m) ≤ 1
keyed-Distinct v [] d = omega arith
keyed-Distinct v ((w, n) ∷ m) d = elim (ℕ_discrete w v) [
  | yes e ↦ ground (arith, keyed-absent v m (rw e at d.0))
  | no k ↦ ground (arith, keyed-Distinct v m d.1)
]

count_values-Distinct : (vs : List ℕ) → Distinct (count_values vs)
unfolding count_values
count_values-Distinct vs = count_into-Distinct [] vs tt

others_max : (v d : ℕ) (l : List (ℕ × ℕ)) → All (λ f. f.0 ≤ d) l → All (λ f. f.1 ≢ v → f.0 ≤ d) l
others_max v d [] a = tt
others_max v d (f ∷ l) a = (λ n. a.0, others_max v d l a.1)

module _ (vs : List ℕ) where
  exact_entries : All (λ e. occurs e.1 vs ≡ e.0) (count_vec (count_values vs))
  exact_entries =
      (All-count_vec _ (count_values vs)).0
        (relabel (count_values vs) (Distinct-entries (count_values vs) (count_values-Distinct vs)))
    where
      relabel :
          (l : List (ℕ × ℕ))
          → All (λ e. count_of e.0 (count_values vs) ≡ e.1) l
          → All (λ e. occurs e.0 vs ≡ e.1) l
      relabel [] a = tt
      relabel ((x, n) ∷ l) a = (sym (count_of-count_values x vs) ∙ a.0, relabel l a.1)

  counts_IsSorted : IsSorted ranked (count_vec (count_values vs))
  unfolding count_vec
  counts_IsSorted = sort_by-IsSorted ranked ranked-swapped (map swap_entry (count_values vs))

  counts_once : (v : ℕ) → keyed v (count_vec (count_values vs)) ≤ 1
  unfolding count_vec
  counts_once v =
      rw (keyed-sort_by v (map swap_entry (count_values vs)))
        (keyed-Distinct v (count_values vs) (count_values-Distinct vs))

  -- The first entry is a value that occurs most often, with the number of its occurrences.
  pub top_entry :
      (c v : ℕ) (r : List (ℕ × ℕ))
      → count_vec (count_values vs) ≡ (c, v) ∷ r
      → (occurs v vs ≡ c) × ((w : ℕ) → occurs w vs ≤ c)
  top_entry c v r e =
      let exact = subst (All (λ d. occurs d.1 vs ≡ d.0)) e exact_entries in
      let sorted = subst (IsSorted ranked) e counts_IsSorted in
      let below : All (λ d. d.0 ≤ c) (count_vec (count_values vs)) =
        rw e (omega arith, first_count_max c v r sorted) in
      (
        exact.0,
        λ w. rw (← count_of-count_values w vs) (
            count_of-bound w c (count_values vs)
              ((All-count_vec (λ d. d.0 ≤ c) (count_values vs)).1 below)),
      )

  -- The second entry is a value that occurs most often among the others.
  pub second_entry :
      (c v d w : ℕ) (r : List (ℕ × ℕ))
      → count_vec (count_values vs) ≡ (c, v) ∷ (d, w) ∷ r
      → (w ≢ v) × (occurs w vs ≡ d) × ((x : ℕ) → x ≢ v → occurs x vs ≤ d)
  second_entry c v d w r e =
      let exact = subst (All (λ d. occurs d.1 vs ≡ d.0)) e exact_entries in
      let sorted = subst (IsSorted ranked) e counts_IsSorted in
      let below : All (λ f. f.1 ≢ v → f.0 ≤ d) (count_vec (count_values vs)) = rw e (
        λ n. absurd (n refl),
        (λ n. omega arith, others_max v d r (first_count_max d w r sorted.1)),
      ) in
      (
        λ same. absurd (twice same),
        exact.1.0,
        λ x n. rw (← count_of-count_values x vs) (
            count_of-bound_but v x d (count_values vs) n
              ((All-count_vec (λ f. f.1 ≢ v → f.0 ≤ d) (count_values vs)).1 below)),
      )
    where
      twice : w ≡ v → ⊥
      twice same = omega (arith, ap (keyed v) e, counts_once v, keyed_both same)
        where
          keyed_both : w ≡ v → 2 ≤ keyed v ((c, v) ∷ (d, w) ∷ r)
          keyed_both same = ground arith

  pub no_entry : count_vec (count_values vs) ≡ [] → (w : ℕ) → occurs w vs ≡ 0
  no_entry e w =
      let below : All (λ d. d.0 ≤ 0) (count_vec (count_values vs)) = rw e tt in
      omega (
        arith,
        count_of-count_values w vs,
        count_of-bound w 0 (count_values vs)
            ((All-count_vec (λ d. d.0 ≤ 0) (count_values vs)).1 below),
      )

  pub one_entry :
      (c v : ℕ) → count_vec (count_values vs) ≡ (c, v) ∷ [] → (x : ℕ) → x ≢ v → occurs x vs ≡ 0
  one_entry c v e x n =
      let below : All (λ f. f.1 ≢ v → f.0 ≤ 0) (count_vec (count_values vs)) =
        rw e (λ m. absurd (m refl), tt) in
      omega (
        arith,
        count_of-count_values x vs,
        count_of-bound_but v x 0 (count_values vs) n
            ((All-count_vec (λ f. f.1 ≢ v → f.0 ≤ 0) (count_values vs)).1 below),
      )
