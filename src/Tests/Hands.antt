-- ===== src/Tests/Hands.antt =====
-- Examples for hands, their ranks and the cards that a showdown points out.
use rust_poker.Base.{
  ℕ, ◌+◌, ◌-◌, ◌≤◌, ◌<◌, ◌≡◌, ◌⊎◌, refl, List, [], ◌∷◌, none, some, Ordering, map, All, arith,
}
use rust_poker.Base.Sort.{sort_by}
use rust_poker.Hand.{Hand}
use rust_poker.Hand.Evaluate.{evaluate, all_same, suits, values}
use rust_poker.Hand.Evaluate.Laws.{category, TopTwo, evaluate-category}
use rust_poker.Hand.Evaluate.Limits.{check_straight-wheel_of_seven}
use rust_poker.Hand.Rank.{HandRank, high_card, one_pair, cmp, rank_value}
use rust_poker.Hand.Rank.Order.{cmp-high_card_lowest}
use rust_poker.Hand.Straight.{ace_high, check_straight}
use rust_poker.Hand.Straight.Windows.{HasRun}
use rust_poker.Hand.Straight.Laws.{IsWheel, check_straight-HasRun, check_straight-of_HasRun}

abbrev kings : HandRank
kings = one_pair 13 (9 ∷ 4 ∷ 2 ∷ []) []

abbrev queens : HandRank
queens = one_pair 12 (9 ∷ 4 ∷ 2 ∷ []) []

abbrev ace_alone : HandRank
ace_alone = high_card (14 ∷ 9 ∷ []) []

-- Ace, king and two are below three, four and five.
cmp-high_card_lowest_example :
    cmp (high_card (14 ∷ 13 ∷ 2 ∷ []) []) (high_card (5 ∷ 4 ∷ 3 ∷ []) []) ≡ some Ordering.lt
cmp-high_card_lowest_example =
    cmp-high_card_lowest (14 ∷ 13 ∷ []) (5 ∷ 4 ∷ []) [] [] 2 3 (omega arith)

abbrev eight : ℕ
eight = 8

abbrev run : List ℕ
run = 8 ∷ 4 ∷ 7 ∷ 5 ∷ 6 ∷ 2 ∷ []

bounded : All (λ v. v < 256) run
bounded =
    (omega arith, (omega arith, (omega arith, (omega arith, (omega arith, (omega arith, tt))))))

check_straight-HasRun_example :
    (IsWheel run × (eight ≡ 5)) ⊎ ((4 ≤ eight) × HasRun (eight - 4) (map ace_high run))
unfolding check_straight sort_by
check_straight-HasRun_example = check_straight-HasRun run eight bounded refl

check_straight-of_HasRun_example :
    (h : ℕ) × (check_straight run ≡ some h) × ((4 + 4 ≤ h) ⊎ IsWheel run)
check_straight-of_HasRun_example =
    check_straight-of_HasRun run 4 bounded (refl, refl, refl, refl, refl)

-- Two kings, two fives and a nine.
abbrev two_pairs : Hand
two_pairs = record { cards = 13 ∷ 21 ∷ 29 ∷ 9 ∷ 53 ∷ [] }

evaluate-category_example :
    (v : ℕ) × (c : ℕ) × (d : ℕ) × TopTwo (values two_pairs.cards) v c d
    × (rank_value (evaluate two_pairs)
        ≡ category (all_same (suits two_pairs.cards)) (check_straight (values two_pairs.cards)) c d)
evaluate-category_example = evaluate-category two_pairs (λ e. ground arith)

check_straight-wheel_of_seven_example : check_straight (1 ∷ 2 ∷ 3 ∷ 4 ∷ 5 ∷ 9 ∷ 13 ∷ []) ≡ none
check_straight-wheel_of_seven_example =
    check_straight-wheel_of_seven 9 13 (omega arith) (omega arith) (omega arith) (omega arith)
