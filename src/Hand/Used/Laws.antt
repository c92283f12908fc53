-- ===== src/Hand/Used/Laws.antt =====
-- Laws of the cards that a showdown points out, Poker/src/hand.rs.
use rust_poker.Base.{
  ℕ, zero, suc, ◌+◌, ◌≤◌, ◌≡◌, ◌≢◌, refl, inl, inr, List, [], ◌∷◌, ◌++◌, Option, none, some, Bool,
  true, not, ◌&&◌, max, arith, ◌==◌, All, filter, find, take, contains, is_empty, length,
  length-append, Bool-cases,
}
use rust_poker.Base.Sort.{All-sort_by}
use rust_poker.Hand.Rank.{
  HandRank, no_cards, high_card, one_pair, two_pair, three_of_a_kind, straight, flush, full_house,
  four_of_a_kind, straight_flush, royal_flush, rank_value,
}
use rust_poker.Hand.Used.{
  value, by_value, sorted_by_value, take_value, straight_values, push_some, pick_values,
  take_straight, cards_used, add_kickers, needed_from, needed_count, needed_kickers, with_kickers,
  cards_used_against,
}

module _ (P : ℕ → Type 0) where
  All-append : (xs ys : List ℕ) → All P xs → All P ys → All P (xs ++ ys)
  All-append [] ys a b = b
  All-append (x ∷ xs) ys a b = (a.0, All-append xs ys a.1 b)

  All-take : (n : ℕ) (xs : List ℕ) → All P xs → All P (take n xs)
  All-take zero xs a = tt
  All-take (suc n) [] a = tt
  All-take (suc n) (x ∷ xs) a = (a.0, All-take n xs a.1)

  All-filter : (p : ℕ → Bool) (xs : List ℕ) → All P xs → All P (filter p xs)
  All-filter p [] a = tt
  All-filter p (x ∷ xs) a = ground (arith, All-filter p xs a.1)

  All-find :
      (p : ℕ → Bool) (xs used : List ℕ) → All P xs → All P used → All P (push_some used (find p xs))
  All-find p [] used a b = b
  All-find p (x ∷ xs) used a b = elim (Bool-cases (p x)) [
    | inl t ↦ rw t (All-append used (x ∷ []) b (a.0, tt))
    | inr t ↦ rw t (All-find p xs used a.1 b)
  ]

  module _ (source : List ℕ) (from : All P source) where
    sorted : All P (sorted_by_value source)
    sorted = (All-sort_by by_value P source).0 from

    All-take_value : (v n : ℕ) → All P (take_value source v n)
    unfolding take_value
    All-take_value v n = All-take n _ (All-filter _ (sorted_by_value source) sorted)

    All-pick_values : (used targets : List ℕ) → All P used → All P (pick_values source used targets)
    unfolding pick_values
    All-pick_values used [] a = a
    All-pick_values used (t ∷ ts) a =
        All-pick_values (push_some used (find (λ card. value card == t) (sorted_by_value source)))
          ts (All-find (λ card. value card == t) (sorted_by_value source) used sorted a)

    All-take_straight : (high : ℕ) → All P (take_straight source high)
    unfolding take_straight
    All-take_straight high = All-pick_values [] (straight_values high) tt

    All-add_kickers :
        (cards targets : List ℕ) → All P cards → All P (add_kickers cards source targets)
    unfolding add_kickers
    All-add_kickers cards [] a = a
    All-add_kickers cards (t ∷ ts) a =
        let test = λ (card : ℕ). (value card == t) && not (contains cards card) in
        All-add_kickers (push_some cards (find test (sorted_by_value source))) ts
          (All-find test (sorted_by_value source) cards sorted a)

    All-cards_used : (r : HandRank) → All P (cards_used r source)
    unfolding cards_used
    All-cards_used no_cards = tt
    All-cards_used (high_card v c) = All-take 1 _ sorted
    All-cards_used (one_pair v k c) = All-take_value v 2
    All-cards_used (two_pair v w k c) = All-append _ _ (All-take_value v 2) (All-take_value w 2)
    All-cards_used (three_of_a_kind v k c) = All-take_value v 3
    All-cards_used (straight h c) = All-take_straight h
    All-cards_used (flush v c) = All-take 5 _ sorted
    All-cards_used (full_house v w c) = All-append _ _ (All-take_value v 3) (All-take_value w 2)
    All-cards_used (four_of_a_kind v k c) = All-take_value v 4
    All-cards_used (straight_flush h c) = All-take_straight h
    All-cards_used (royal_flush c) = All-take_straight 14

    All-with_kickers :
        (r : HandRank) (cards : List ℕ) (same : List HandRank)
        → All P cards
        → All P (with_kickers r cards source same)
    unfolding with_kickers
    All-with_kickers (high_card v c) cards same a = All-add_kickers [] _ tt
    All-with_kickers (one_pair v k c) cards same a = All-add_kickers cards _ a
    All-with_kickers (two_pair v w k c) cards same a = All-add_kickers cards _ a
    All-with_kickers (three_of_a_kind v k c) cards same a = All-add_kickers cards _ a
    All-with_kickers (four_of_a_kind v k c) cards same a = All-add_kickers cards _ a
    All-with_kickers _ cards same a = a

    -- Whatever holds of every card of the source holds of every card pointed out.
    pub All-cards_used_against :
        (r : HandRank) (ranks : List HandRank) → All P (cards_used_against r source ranks)
    unfolding cards_used_against
    All-cards_used_against r ranks =
        elim (Bool-cases (is_empty (filter (λ other. rank_value other == rank_value r) ranks))) [
          | inl t ↦ rw t (All-cards_used r)
          | inr t ↦ rw t (All-with_kickers r (cards_used r source) _ (All-cards_used r))
        ]

contains-All :
    (xs ys : List ℕ)
    → ((a : ℕ) → contains xs a ≡ true → contains ys a ≡ true)
    → All (λ c. contains ys c ≡ true) xs
contains-All [] ys h = tt
contains-All (x ∷ xs) ys h = (h x (ground arith), contains-All xs ys (λ a m. h a (ground arith)))

-- Every card that a showdown points out is a card of the hand it was taken from, against whatever
-- other ranks.
cards_used_against-from_source :
    (r : HandRank) (source : List ℕ) (ranks : List HandRank)
    → All (λ c. contains source c ≡ true) (cards_used_against r source ranks)
cards_used_against-from_source r source =
    All-cards_used_against (λ c. contains source c ≡ true) source
      (contains-All source source (λ a m. m)) r

length-take-le : (n : ℕ) (xs : List ℕ) → length (take n xs) ≤ n
length-take-le zero xs = omega arith
length-take-le (suc n) [] = omega arith
length-take-le (suc n) (x ∷ xs) = omega (arith, length-take-le n xs)

length-push_some : (used : List ℕ) (o : Option ℕ) → length (push_some used o) ≤ length used + 1
length-push_some used none = omega arith
length-push_some used (some c) = omega (arith, length-append used (c ∷ []))

length-pick_values :
    (source used targets : List ℕ)
    → length (pick_values source used targets) ≤ length used + length targets
unfolding pick_values
length-pick_values source used [] = omega arith
length-pick_values source used (t ∷ ts) =
    let o = find (λ card. value card == t) (sorted_by_value source) in
    omega (arith, length-pick_values source (push_some used o) ts, length-push_some used o)

length-take_straight : (source : List ℕ) (high : ℕ) → length (take_straight source high) ≤ 5
unfolding take_straight straight_values
length-take_straight source high =
    ground (arith, length-pick_values source [] (straight_values high))

length-take_value : (source : List ℕ) (v n : ℕ) → length (take_value source v n) ≤ n
unfolding take_value
length-take_value source v n =
    length-take-le n (filter (λ card. value card == v) (sorted_by_value source))

-- `cards_used` points out five cards at most.
pub length-cards_used : (r : HandRank) (source : List ℕ) → length (cards_used r source) ≤ 5
unfolding cards_used
length-cards_used no_cards source = omega arith
length-cards_used (high_card v c) source = omega (arith, length-take-le 1 (sorted_by_value source))
length-cards_used (one_pair v k c) source = omega (arith, length-take_value source v 2)
length-cards_used (two_pair v w k c) source = omega (
  arith,
  length-append (take_value source v 2) (take_value source w 2),
  length-take_value source v 2,
  length-take_value source w 2,
)
length-cards_used (three_of_a_kind v k c) source = omega (arith, length-take_value source v 3)
length-cards_used (straight h c) source = length-take_straight source h
length-cards_used (flush v c) source = length-take-le 5 (sorted_by_value source)
length-cards_used (full_house v w c) source = omega (
  arith,
  length-append (take_value source v 3) (take_value source w 2),
  length-take_value source v 3,
  length-take_value source w 2,
)
length-cards_used (four_of_a_kind v k c) source = omega (arith, length-take_value source v 4)
length-cards_used (straight_flush h c) source = length-take_straight source h
length-cards_used (royal_flush c) source = length-take_straight source 14

needed_from-ge : (i n : ℕ) (xs ys : List ℕ) → n ≤ needed_from i n xs ys
unfolding needed_from
needed_from-ge i n [] ys = omega arith
needed_from-ge i n (x ∷ xs) [] = omega arith
needed_from-ge i n (x ∷ xs) (y ∷ ys) = ground (arith, needed_from-ge (suc i) (max n (i + 1)) xs ys)

-- A prefix that holds the first difference tells the two lists apart.
needed_from-differ :
    (i n m : ℕ) (xs ys : List ℕ)
    → length xs ≡ length ys
    → xs ≢ ys
    → needed_from i n xs ys ≤ i + m
    → take m xs ≢ take m ys
unfolding needed_from
needed_from-differ i n m [] [] e d h = absurd (d refl)
needed_from-differ i n m [] (y ∷ ys) e d h = absurd (omega arith)
needed_from-differ i n m (x ∷ xs) [] e d h = absurd (omega arith)
needed_from-differ i n zero (x ∷ xs) (y ∷ ys) e d h =
    absurd (ground (arith, needed_from-ge (suc i) (max n (i + 1)) xs ys))
needed_from-differ i n (suc m) (x ∷ xs) (y ∷ ys) e d h =
    λ same. ground (arith, needed_from-differ (suc i) (max n (i + 1)) m xs ys)

needed_count-ge : (n : ℕ) (own : List ℕ) (others : List (List ℕ)) → n ≤ needed_count n own others
unfolding needed_count
needed_count-ge n own [] = omega arith
needed_count-ge n own (o ∷ os) =
    omega (arith, needed_from-ge 0 n own o, needed_count-ge (needed_from 0 n own o) own os)

needed_count-differ :
    (n m : ℕ) (own : List ℕ) (others : List (List ℕ))
    → needed_count n own others ≤ m
    → All (λ other. length own ≡ length other → own ≢ other → take m own ≢ take m other) others
unfolding needed_count
needed_count-differ n m own [] h = tt
needed_count-differ n m own (o ∷ os) h = (
  λ e d.
      needed_from-differ 0 n m own o e d
        (omega (arith, needed_count-ge (needed_from 0 n own o) own os)),
  needed_count-differ (needed_from 0 n own o) m own os h,
)

-- The kickers pointed out are enough: they tell the hand's kickers from those of every other hand
-- with as many kickers, unless all of these are equal.
needed_kickers_tell_apart :
    (own : List ℕ) (others : List (List ℕ))
    → All
        (λ other.
          length own ≡ length other
          → own ≢ other
          → needed_kickers own others ≢ take (needed_count 0 own others) other)
        others
unfolding needed_kickers
needed_kickers_tell_apart own others =
    needed_count-differ 0 (needed_count 0 own others) own others (omega arith)
