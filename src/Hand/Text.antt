-- ===== src/Hand/Text.antt =====
-- `Display` for `HandRank`, Poker/src/hand.rs.
use Prim.Native.String.{String, ◌++◌}
use rust_poker.Base.{ℕ, List, map, compare, ◌==◌, ltb, if◌then◌else◌}
use rust_poker.Base.Order.{flipped}
use rust_poker.Base.Sort.{sort_by}
use rust_poker.Hand.{join}
use rust_poker.Hand.Rank.{
  HandRank, no_cards, high_card, one_pair, two_pair, three_of_a_kind, straight, flush, full_house,
  four_of_a_kind, straight_flush, royal_flush,
}

unfoldable pub value_to_str : ℕ → String
value_to_str v =
    if v == 1
    then "A"
    else if v == 2
    then "2"
    else if v == 3
    then "3"
    else if v == 4
    then "4"
    else if v == 5
    then "5"
    else if v == 6
    then "6"
    else if v == 7
    then "7"
    else if v == 8
    then "8"
    else if v == 9
    then "9"
    else if v == 10
    then "10"
    else if v == 11
    then "J"
    else if v == 12
    then "Q"
    else if v == 13
    then "K"
    else if v == 14
    then "A"
    else "?"

-- The values from the highest, as one text.
unfoldable pub listed : List ℕ → String
unfolding value_to_str join sort_by
listed vs = join ", " (map value_to_str (sort_by (flipped compare) vs))

unfoldable pub to_string : HandRank → String
unfolding listed
to_string (royal_flush _) = "Royal Flush"
to_string (straight_flush high _) = "Straight Flush (High Card " ++ value_to_str high ++ ")"
to_string (four_of_a_kind v kickers _) =
    "Four of a Kind (" ++ value_to_str v ++ ") with kickers " ++ listed kickers
to_string (full_house three two _) =
    "Full House (" ++ value_to_str three ++ ") over (" ++ value_to_str two ++ ")"
to_string (flush vs _) = "Flush (" ++ listed vs ++ ")"
to_string (straight high _) = "Straight (High Card " ++ value_to_str high ++ ")"
to_string (three_of_a_kind v kickers _) =
    "Three of a Kind (" ++ value_to_str v ++ ") with kickers " ++ listed kickers
to_string (two_pair p1 p2 kickers _) =
    let high = if ltb p2 p1 then p1 else p2 in
    let low = if ltb p2 p1 then p2 else p1 in
    "Two Pair ("
    ++ value_to_str high
    ++ ") and ("
    ++ value_to_str low
    ++ ") with kickers "
    ++ listed kickers
to_string (one_pair v kickers _) =
    "One Pair (" ++ value_to_str v ++ ") with kickers " ++ listed kickers
to_string (high_card vs _) = "High Card (" ++ listed vs ++ ")"
to_string no_cards = "Empty Hand"
