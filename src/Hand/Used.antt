-- ===== src/Hand/Used.antt =====
-- `HandRank::cards_used` and `HandRank::cards_used_against` of Poker/src/hand.rs: the cards that a
-- showdown points out.
pub mod Laws
use rust_poker.Base.{
  ℕ, zero, suc, ◌+◌, ◌-◌, List, [], ◌∷◌, ◌++◌, Option, none, some, Bool, not, ◌&&◌, map, compare,
  Ordering, max, ◌==◌, if◌then◌else◌, filter, find, take, contains, is_empty,
}
use rust_poker.Base.Sort.{sort_by}
use rust_poker.Card.{from_encoded, decode}
use rust_poker.Hand.Rank.{
  HandRank, no_cards, high_card, one_pair, two_pair, three_of_a_kind, straight, flush, full_house,
  four_of_a_kind, straight_flush, royal_flush, rank_value,
}
use rust_poker.Hand.Straight.{sub8, ace_high}

-- An ace counts 14.
abbrev pub value : ℕ → ℕ
value card = ace_high (decode (from_encoded card)).1

abbrev pub by_value : ℕ → ℕ → Ordering
by_value a b = compare (value b) (value a)

abbrev pub sorted_by_value : List ℕ → List ℕ
sorted_by_value source = sort_by by_value source

unfoldable pub take_value : List ℕ → ℕ → ℕ → List ℕ
take_value source target limit =
    take limit (filter (λ card. value card == target) (sorted_by_value source))

unfoldable pub straight_values : ℕ → List ℕ
straight_values high =
    if high == 5
    then 5 ∷ 4 ∷ 3 ∷ 2 ∷ 14 ∷ []
    else sub8 high 0 ∷ sub8 high 1 ∷ sub8 high 2 ∷ sub8 high 3 ∷ sub8 high 4 ∷ []

-- `if let Some(card) = … { used.push(card) }`.
abbrev pub push_some : List ℕ → Option ℕ → List ℕ
push_some used none = used
push_some used (some card) = used ++ card ∷ []

-- The loop of `take_straight` over the targets.
unfoldable pub pick_values : List ℕ → List ℕ → List ℕ → List ℕ
pick_values source used [] = used
pick_values source used (target ∷ rest) =
    pick_values source
      (push_some used (find (λ card. value card == target) (sorted_by_value source))) rest

unfoldable pub take_straight : List ℕ → ℕ → List ℕ
unfolding pick_values straight_values
take_straight source high = pick_values source [] (straight_values high)

unfoldable pub cards_used : HandRank → List ℕ → List ℕ
unfolding take_value take_straight
cards_used no_cards source = []
cards_used (high_card _ _) source = take 1 (sorted_by_value source)
cards_used (one_pair pair _ _) source = take_value source pair 2
cards_used (two_pair pair_a pair_b _ _) source =
    take_value source pair_a 2 ++ take_value source pair_b 2
cards_used (three_of_a_kind v _ _) source = take_value source v 3
cards_used (straight high _) source = take_straight source high
cards_used (flush _ _) source = take 5 (sorted_by_value source)
cards_used (full_house three pair _) source = take_value source three 3 ++ take_value source pair 2
cards_used (four_of_a_kind v _ _) source = take_value source v 4
cards_used (straight_flush high _) source = take_straight source high
cards_used (royal_flush _) source = take_straight source 14

-- The first card of the value wanted that is not yet among `cards`.
unfoldable pub add_kickers : List ℕ → List ℕ → List ℕ → List ℕ
add_kickers cards source [] = cards
add_kickers cards source (target ∷ rest) =
    add_kickers
      (push_some cards (
        find (λ card. (value card == target) && not (contains cards card))
          (sorted_by_value source)))
      source rest

-- The inner loop of `needed_kickers`: up to the first difference, both included.
unfoldable pub needed_from : ℕ → ℕ → List ℕ → List ℕ → ℕ
needed_from index needed (x ∷ xs) (y ∷ ys) =
    let rest = needed_from (suc index) (max needed (index + 1)) xs ys in
    if x == y then rest else max needed (index + 1)
needed_from index needed _ _ = needed

unfoldable pub needed_count : ℕ → List ℕ → List (List ℕ) → ℕ
unfolding needed_from
needed_count needed own [] = needed
needed_count needed own (other ∷ others) = needed_count (needed_from 0 needed own other) own others

unfoldable pub needed_kickers : List ℕ → List (List ℕ) → List ℕ
unfolding needed_count
needed_kickers own others = take (needed_count 0 own others) own

abbrev filter_map : (HandRank → Option (List ℕ)) → List HandRank → List (List ℕ)
filter_map f [] = []
filter_map f (r ∷ rs) = elim (f r) [ none ↦ filter_map f rs | some k ↦ k ∷ filter_map f rs ]

-- The kickers that count against a rank of the same kind and values.
abbrev rival_kickers : HandRank → HandRank → Option (List ℕ)
rival_kickers (high_card _ _) (high_card other_values _) = some other_values
rival_kickers (one_pair pair _ _) (one_pair other_pair k _) =
    if other_pair == pair then some k else none
rival_kickers (two_pair a b _ _) (two_pair other_a other_b k _) =
    if (other_a == a) && (other_b == b) then some k else none
rival_kickers (three_of_a_kind v _ _) (three_of_a_kind other_value k _) =
    if other_value == v then some k else none
rival_kickers (four_of_a_kind v _ _) (four_of_a_kind other_value k _) =
    if other_value == v then some k else none
rival_kickers _ _ = none

-- The match of `cards_used_against`, over the other ranks of the same rank value.
unfoldable pub with_kickers : HandRank → List ℕ → List ℕ → List HandRank → List ℕ
with_kickers (high_card vs c) cards source same =
    add_kickers [] source (needed_kickers vs (filter_map (rival_kickers (high_card vs c)) same))
with_kickers (one_pair v k c) cards source same =
    add_kickers cards source (needed_kickers k (filter_map (rival_kickers (one_pair v k c)) same))
with_kickers (two_pair v w k c) cards source same =
    add_kickers cards source (needed_kickers k (filter_map (rival_kickers (two_pair v w k c)) same))
with_kickers (three_of_a_kind v k c) cards source same =
    add_kickers cards source
      (needed_kickers k (filter_map (rival_kickers (three_of_a_kind v k c)) same))
with_kickers (four_of_a_kind v k c) cards source same =
    add_kickers cards source
      (needed_kickers k (filter_map (rival_kickers (four_of_a_kind v k c)) same))
with_kickers _ cards source same = cards

unfoldable pub cards_used_against : HandRank → List ℕ → List HandRank → List ℕ
unfolding cards_used with_kickers rank_value
cards_used_against rank source ranks =
    let cards = cards_used rank source in
    let same = filter (λ other. rank_value other == rank_value rank) ranks in
    if is_empty same then cards else with_kickers rank cards source same
