-- ===== src/Hand/Evaluate.antt =====
-- `Hand::evaluate` and `Hand::count_values` of Poker/src/hand.rs. Each early return of `evaluate`
-- is a function into `Option`, in the order of the source.
pub mod Counts
pub mod Top
pub mod Laws
pub mod Limits
use rust_poker.Base.{
  ℕ, suc, ◌+◌, List, [], ◌∷◌, Option, none, some, Bool, true, false, not, ◌&&◌, map, compare,
  Ordering, ◌==◌, ltb, if◌then◌else◌, filter, is_some,
}
use rust_poker.Base.Order.{then_cmp, compare_pair, flipped}
use rust_poker.Base.Sort.{sort_by}
use rust_poker.Card.{from_encoded, decode}
use rust_poker.Hand.{Hand}
use rust_poker.Hand.Rank.{
  HandRank, no_cards, high_card, one_pair, two_pair, three_of_a_kind, straight, flush, full_house,
  four_of_a_kind, straight_flush, royal_flush,
}
use rust_poker.Hand.Straight.{ace_high, check_straight}

abbrev pub suit_of : ℕ → ℕ
suit_of c = (decode (from_encoded c)).0

abbrev pub value_of : ℕ → ℕ
value_of c = (decode (from_encoded c)).1

-- The two vectors of the `unzip`.
abbrev pub suits : List ℕ → List ℕ
suits cards = map suit_of cards

abbrev pub values : List ℕ → List ℕ
values cards = map value_of cards

-- Highest value first, then highest suit.
abbrev pub compare_cards : ℕ → ℕ → Ordering
compare_cards a b = then_cmp (compare (value_of b) (value_of a)) (compare (suit_of b) (suit_of a))

-- `windows(2).all(|w| w[0] == w[1])`.
abbrev pub all_same : List ℕ → Bool
all_same [] = true
all_same (a ∷ []) = true
all_same (a ∷ b ∷ rest) = (a == b) && all_same (b ∷ rest)

-- `counts.entry(v).or_insert(0) += 1` on a map from values to counts.
unfoldable pub bump : ℕ → List (ℕ × ℕ) → List (ℕ × ℕ)
bump v [] = (v, 1) ∷ []
bump v ((w, n) ∷ m) = if w == v then (w, n + 1) ∷ m else (w, n) ∷ bump v m

unfoldable pub count_into : List (ℕ × ℕ) → List ℕ → List (ℕ × ℕ)
unfolding bump
count_into m [] = m
count_into m (v ∷ vs) = count_into (bump v m) vs

unfoldable pub count_values : List ℕ → List (ℕ × ℕ)
unfolding count_into
count_values vs = count_into [] vs

abbrev pub swap_entry : ℕ × ℕ → ℕ × ℕ
swap_entry (v, c) = (c, v)

-- The entries as (count, value), most frequent first, then highest value first.
unfoldable pub count_vec : List (ℕ × ℕ) → List (ℕ × ℕ)
count_vec counts = sort_by (flipped (compare_pair compare compare)) (map swap_entry counts)

-- `sort_by(|a, b| b.cmp(a))`.
abbrev pub falling : List ℕ → List ℕ
falling vs = sort_by (flipped compare) vs

abbrev without : ℕ → List ℕ → List ℕ
without v vs = filter (λ w. not (w == v)) vs

unfoldable pub royal_stage : Bool → Option ℕ → List ℕ → Option HandRank
royal_stage is_flush none cards = none
royal_stage is_flush (some h) cards =
    if is_flush && (h == 14) then some (royal_flush cards) else none

unfoldable pub straight_flush_stage : Bool → Option ℕ → List ℕ → Option HandRank
straight_flush_stage is_flush none cards = none
straight_flush_stage is_flush (some h) cards =
    if is_flush then some (straight_flush h cards) else none

unfoldable pub four_stage : List (ℕ × ℕ) → List ℕ → List ℕ → Option HandRank
four_stage [] vs cards = none
four_stage ((c, v) ∷ _) vs cards =
    if c == 4 then some (four_of_a_kind (ace_high v) (without v vs) cards) else none

unfoldable pub full_house_stage : List (ℕ × ℕ) → List ℕ → Option HandRank
full_house_stage ((c, v) ∷ (d, w) ∷ _) cards =
    if (c == 3) && (d == 2) then some (full_house (ace_high v) (ace_high w) cards) else none
full_house_stage _ cards = none

unfoldable pub flush_stage : Bool → List ℕ → List ℕ → Option HandRank
flush_stage is_flush vs cards = if is_flush then some (flush (falling vs) cards) else none

unfoldable pub straight_stage : Option ℕ → List ℕ → Option HandRank
straight_stage none cards = none
straight_stage (some h) cards = some (straight h cards)

unfoldable pub three_stage : List (ℕ × ℕ) → List ℕ → List ℕ → Option HandRank
three_stage [] vs cards = none
three_stage ((c, v) ∷ _) vs cards =
    if c == 3 then some (three_of_a_kind (ace_high v) (without v vs) cards) else none

unfoldable pub two_pair_stage : List (ℕ × ℕ) → List ℕ → List ℕ → Option HandRank
two_pair_stage ((c, v) ∷ (d, w) ∷ _) vs cards =
    let p = ace_high v in
    let q = ace_high w in
    let kickers = filter (λ x. not (x == v) && not (x == w)) vs in
    if (c == 2) && (d == 2)
    then some (if ltb q p then two_pair p q kickers cards else two_pair q p kickers cards)
    else none
two_pair_stage _ vs cards = none

unfoldable pub one_pair_stage : List (ℕ × ℕ) → List ℕ → List ℕ → Option HandRank
one_pair_stage [] vs cards = none
one_pair_stage ((c, v) ∷ _) vs cards =
    if c == 2 then some (one_pair (ace_high v) (without v vs) cards) else none

-- The first stage that returns.
infixr 20 ◌or_else◌
abbrev pub ◌or_else◌ : Option HandRank → HandRank → HandRank
none or_else r = r
some a or_else r = a

-- `evaluate` after its preparations: flush test, straight, counts, values and sorted cards.
unfoldable pub classify : Bool → Option ℕ → List (ℕ × ℕ) → List ℕ → List ℕ → HandRank
unfolding royal_stage straight_flush_stage four_stage full_house_stage flush_stage straight_stage
    three_stage two_pair_stage one_pair_stage
classify is_flush straight_high counted vs cards =
    royal_stage is_flush straight_high cards
    or_else straight_flush_stage is_flush straight_high cards
    or_else four_stage counted vs cards
    or_else full_house_stage counted cards
    or_else flush_stage is_flush vs cards
    or_else straight_stage straight_high cards
    or_else three_stage counted vs cards
    or_else two_pair_stage counted vs cards
    or_else one_pair_stage counted vs cards
    or_else high_card (falling vs) cards

unfoldable pub evaluate_cards : List ℕ → HandRank
evaluate_cards [] = no_cards
evaluate_cards (c ∷ cs) =
    let cards = c ∷ cs in
    classify (all_same (suits cards)) (check_straight (values cards))
      (count_vec (count_values (values cards))) (values cards) (sort_by compare_cards cards)

unfoldable pub evaluate : Hand → HandRank
unfolding evaluate_cards
evaluate h = evaluate_cards h.cards
