-- ===== src/Hand/Rank.antt =====
-- `HandRank` of Poker/src/hand.rs and its `Ord` instance.
pub mod Order
use rust_poker.Base.{ℕ, List, Option, none, some, compare, Ordering, reverse}
use rust_poker.Base.Order.{then_cmp, compare_list}

pub data HandRank : Type 0 where
  no_cards : HandRank
  high_card : List ℕ → List ℕ → HandRank
  one_pair : ℕ → List ℕ → List ℕ → HandRank
  two_pair : ℕ → ℕ → List ℕ → List ℕ → HandRank
  three_of_a_kind : ℕ → List ℕ → List ℕ → HandRank
  straight : ℕ → List ℕ → HandRank
  flush : List ℕ → List ℕ → HandRank
  full_house : ℕ → ℕ → List ℕ → HandRank
  four_of_a_kind : ℕ → List ℕ → List ℕ → HandRank
  straight_flush : ℕ → List ℕ → HandRank
  royal_flush : List ℕ → HandRank

unfoldable pub rank_value : HandRank → ℕ
rank_value no_cards = 0
rank_value (high_card _ _) = 1
rank_value (one_pair _ _ _) = 2
rank_value (two_pair _ _ _ _) = 3
rank_value (three_of_a_kind _ _ _) = 4
rank_value (straight _ _) = 5
rank_value (flush _ _) = 6
rank_value (full_house _ _ _) = 7
rank_value (four_of_a_kind _ _ _) = 8
rank_value (straight_flush _ _) = 9
rank_value (royal_flush _) = 10

-- The values from the last to the first.
unfoldable pub compare_values : List ℕ → List ℕ → Ordering
compare_values a b = compare_list (reverse a) (reverse b)

-- The match inside `cmp`; `none` is its panic on two different kinds of rank.
unfoldable pub cmp_same : HandRank → HandRank → Option Ordering
unfolding compare_values
cmp_same no_cards no_cards = some Ordering.eq
cmp_same (high_card a_v a_cards) (high_card b_v b_cards) =
    some (then_cmp (compare_values a_v b_v) (compare_list a_cards b_cards))
cmp_same (one_pair v_a k_a a_cards) (one_pair v_b k_b b_cards) =
    some (
      then_cmp (then_cmp (compare v_a v_b) (compare_values k_a k_b)) (compare_list a_cards b_cards))
cmp_same (two_pair a1 a2 k_a a_cards) (two_pair b1 b2 k_b b_cards) = some (
    then_cmp (then_cmp (then_cmp (compare a1 b1) (compare a2 b2)) (compare_values k_a k_b))
      (compare_list a_cards b_cards))
cmp_same (three_of_a_kind v_a k_a a_cards) (three_of_a_kind v_b k_b b_cards) =
    some (
      then_cmp (then_cmp (compare v_a v_b) (compare_values k_a k_b)) (compare_list a_cards b_cards))
cmp_same (straight v_a a_cards) (straight v_b b_cards) =
    some (then_cmp (compare v_a v_b) (compare_list a_cards b_cards))
cmp_same (flush a_v a_cards) (flush b_v b_cards) =
    some (then_cmp (compare_values a_v b_v) (compare_list a_cards b_cards))
cmp_same (full_house t_a p_a a_cards) (full_house t_b p_b b_cards) =
    some (then_cmp (then_cmp (compare t_a t_b) (compare p_a p_b)) (compare_list a_cards b_cards))
cmp_same (four_of_a_kind v_a k_a a_cards) (four_of_a_kind v_b k_b b_cards) =
    some (
      then_cmp (then_cmp (compare v_a v_b) (compare_values k_a k_b)) (compare_list a_cards b_cards))
cmp_same (straight_flush v_a a_cards) (straight_flush v_b b_cards) =
    some (then_cmp (compare v_a v_b) (compare_list a_cards b_cards))
cmp_same (royal_flush a_cards) (royal_flush b_cards) = some (compare_list a_cards b_cards)
cmp_same _ _ = none

-- `then_with` calls its closure on equal rank values only.
unfoldable pub cmp : HandRank → HandRank → Option Ordering
unfolding cmp_same rank_value
cmp a b = elim (compare (rank_value a) (rank_value b)) [ Ordering.eq ↦ cmp_same a b | o ↦ some o ]
