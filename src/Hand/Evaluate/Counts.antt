-- ===== src/Hand/Evaluate/Counts.antt =====
-- The value counts of `evaluate` in Poker/src/hand.rs.
use mathlib.Core.List.{Perm}
use mathlib.Core.List.Perm
use rust_poker.Base.{ℕ, ◌+◌, ◌≡◌, List, [], ◌∷◌, arith, ◌==◌, occurs, if◌then◌else◌}
use rust_poker.Base.Order.{flipped-IsTotalOrder, pair-IsTotalOrder, ℕ-IsTotalOrder}
use rust_poker.Base.Sort.{sort_by-eq_of_perm}
use rust_poker.Hand.Evaluate.{bump, count_into, count_values, count_vec, swap_entry}

-- `HashMap::get`, with 0 for a value that is not there.
abbrev pub count_of : ℕ → List (ℕ × ℕ) → ℕ
count_of a [] = 0
count_of a ((w, n) ∷ m) = if w == a then n else count_of a m

count_of-bump :
    (a v : ℕ) (m : List (ℕ × ℕ))
    → count_of a (bump v m) ≡ (if v == a then count_of a m + 1 else count_of a m)
unfolding bump
count_of-bump a v [] = ground arith
count_of-bump a v ((w, n) ∷ m) = ground (arith, count_of-bump a v m)

count_of-count_into :
    (a : ℕ) (m : List (ℕ × ℕ)) (vs : List ℕ)
    → count_of a (count_into m vs) ≡ count_of a m + occurs a vs
unfolding count_into
count_of-count_into a m [] = omega arith
count_of-count_into a m (v ∷ vs) =
    ground (arith, count_of-count_into a (bump v m) vs, count_of-bump a v m)

-- `count_values` maps each value to the number of times it occurs.
pub count_of-count_values : (a : ℕ) (vs : List ℕ) → count_of a (count_values vs) ≡ occurs a vs
unfolding count_values
count_of-count_values a vs = omega (arith, count_of-count_into a [] vs)

entries-set : IsSet (List (ℕ × ℕ))
entries-set = hlevel

-- `count_vec` is the same in whatever order the map of counts is walked.
pub count_vec-perm : (m m' : List (ℕ × ℕ)) → Perm m m' → count_vec m ≡ count_vec m'
unfolding count_vec
count_vec-perm m m' p =
    sort_by-eq_of_perm (flipped-IsTotalOrder (pair-IsTotalOrder ℕ-IsTotalOrder ℕ-IsTotalOrder))
      entries-set (Perm.map swap_entry p)
