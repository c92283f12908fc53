-- ===== src/Hand/Evaluate/Laws.antt =====
-- What `Hand::evaluate` of Poker/src/hand.rs returns, whatever the hand.
use mathlib.Core.List.{Perm}
use rust_poker.Base.{
  ℕ, ◌<◌, ◌≡◌, ◌≢◌, refl, sym, ap, ◌∙◌, ◌⊎◌, inl, inr, List, [], ◌∷◌, Option, none, some, Bool,
  false, ◌&&◌, map, arith, All, is_some, if◌then◌else◌, occurs, ◌≤◌, ◌==◌,
}
use rust_poker.Base.Order.{swap}
use rust_poker.Base.Sort.{sort_by, sort_by-perm, sort_by-IsSorted, IsSorted}
use rust_poker.Card.{Card, from_encoded, decode, flip_up, flip_down}
use rust_poker.Card.Laws.{turning_keeps_card}
use rust_poker.Hand.{Hand}
use rust_poker.Hand.Rank.{
  HandRank, no_cards, high_card, one_pair, two_pair, three_of_a_kind, straight, flush, full_house,
  four_of_a_kind, straight_flush, royal_flush, rank_value,
}
use rust_poker.Hand.Straight.{check_straight}
use rust_poker.Hand.Evaluate.Top.{top_entry, second_entry, no_entry, one_entry}
use rust_poker.Hand.Evaluate.{
  value_of, suits, values, compare_cards, all_same, count_values, count_vec, classify,
  evaluate_cards, evaluate,
}

-- The cards that a rank carries for the last tie-break.
abbrev pub cards_of : HandRank → List ℕ
cards_of no_cards = []
cards_of (high_card _ c) = c
cards_of (one_pair _ _ c) = c
cards_of (two_pair _ _ _ c) = c
cards_of (three_of_a_kind _ _ c) = c
cards_of (straight _ c) = c
cards_of (flush _ c) = c
cards_of (full_house _ _ c) = c
cards_of (four_of_a_kind _ _ c) = c
cards_of (straight_flush _ c) = c
cards_of (royal_flush c) = c

-- A rank without them: its kind, values and kickers.
abbrev pub forget_cards : HandRank → HandRank
forget_cards no_cards = no_cards
forget_cards (high_card v _) = high_card v []
forget_cards (one_pair v k _) = one_pair v k []
forget_cards (two_pair v w k _) = two_pair v w k []
forget_cards (three_of_a_kind v k _) = three_of_a_kind v k []
forget_cards (straight v _) = straight v []
forget_cards (flush v _) = flush v []
forget_cards (full_house v w _) = full_house v w []
forget_cards (four_of_a_kind v k _) = four_of_a_kind v k []
forget_cards (straight_flush v _) = straight_flush v []
forget_cards (royal_flush _) = royal_flush []

classify_cards :
    (f : Bool) (s : Option ℕ) (k : List (ℕ × ℕ)) (vs cards : List ℕ)
    → cards_of (classify f s k vs cards) ≡ cards
unfolding classify
classify_cards f s [] vs cards = ground arith
classify_cards f s ((c, v) ∷ []) vs cards = ground arith
classify_cards f s ((c, v) ∷ (d, w) ∷ r) vs cards = ground arith

classify_forgets :
    (f : Bool) (s : Option ℕ) (k : List (ℕ × ℕ)) (vs cards : List ℕ)
    → forget_cards (classify f s k vs cards) ≡ classify f s k vs []
unfolding classify
classify_forgets f s [] vs cards = ground arith
classify_forgets f s ((c, v) ∷ []) vs cards = ground arith
classify_forgets f s ((c, v) ∷ (d, w) ∷ r) vs cards = ground arith

compare_cards-swapped : (a b : ℕ) → compare_cards b a ≡ swap (compare_cards a b)
compare_cards-swapped a b = ground arith

evaluate_cards-cards_of :
    (cards : List ℕ) → cards_of (evaluate_cards cards) ≡ sort_by compare_cards cards
unfolding evaluate_cards sort_by
evaluate_cards-cards_of [] = refl
evaluate_cards-cards_of (c ∷ cs) = classify_cards _ _ _ _ _

-- The rank carries the hand's own cards, each as often, sorted by value and then suit from the
-- highest.
evaluate_keeps_cards :
    (h : Hand)
    → Perm (cards_of (evaluate h)) h.cards × IsSorted compare_cards (cards_of (evaluate h))
unfolding evaluate
evaluate_keeps_cards h = rw (evaluate_cards-cards_of h.cards) (
  sort_by-perm compare_cards h.cards,
  sort_by-IsSorted compare_cards compare_cards-swapped h.cards,
)

forget_cards-evaluate :
    (cs ds : List ℕ)
    → suits cs ≡ suits ds
    → values cs ≡ values ds
    → forget_cards (evaluate_cards cs) ≡ forget_cards (evaluate_cards ds)
unfolding evaluate_cards
forget_cards-evaluate [] [] e e' = refl
forget_cards-evaluate [] (d ∷ ds) e e' = absurd (ground arith)
forget_cards-evaluate (c ∷ cs) [] e e' = absurd (ground arith)
forget_cards-evaluate (c ∷ cs) (d ∷ ds) e e' =
    classify_forgets _ _ _ _ _
    ∙ ap
        (λ s.
          classify (all_same s) (check_straight (values (c ∷ cs)))
            (count_vec (count_values (values (c ∷ cs)))) (values (c ∷ cs)) [])
        e
    ∙ ap
        (λ v.
          classify (all_same (suits (d ∷ ds))) (check_straight v) (count_vec (count_values v)) v [])
        e'
    ∙ sym (classify_forgets _ _ _ _ _)

abbrev pub turn : (Card → Card) → List ℕ → List ℕ
turn f cards = map (λ c. (f (from_encoded c)).byte) cards

suits-turn :
    (f : Card → Card)
    → ((c : Card) → c.byte < 128 → decode (f c) ≡ decode c)
    → (cards : List ℕ) → All (λ c. c < 128) cards
    → (suits (turn f cards) ≡ suits cards) × (values (turn f cards) ≡ values cards)
unfolding from_encoded
suits-turn f keeps [] b = (refl, refl)
suits-turn f keeps (c ∷ cs) b =
    ground (arith, suits-turn f keeps cs b.1, keeps (record { byte = c }) b.0)

-- The kind of rank, its values and its kickers do not depend on which cards lie face up.
evaluate_ignores_faces :
    (h : Hand)
    → All (λ c. c < 128) h.cards
    → (forget_cards (evaluate (record { cards = turn flip_up h.cards }))
        ≡ forget_cards (evaluate h))
      × (forget_cards (evaluate (record { cards = turn flip_down h.cards }))
          ≡ forget_cards (evaluate h))
unfolding evaluate
evaluate_ignores_faces h b =
    let up = suits-turn flip_up (λ c k. (turning_keeps_card c k).1) h.cards b in
    let down = suits-turn flip_down (λ c k. (turning_keeps_card c k).2) h.cards b in
    (forget_cards-evaluate _ h.cards up.0 up.1, forget_cards-evaluate _ h.cards down.0 down.1)

abbrev is_royal : Option ℕ → Bool
is_royal none = false
is_royal (some h) = h == 14

-- The table of ranks: `c` is how often the most frequent value occurs, `d` the next most frequent.
unfoldable pub category : Bool → Option ℕ → ℕ → ℕ → ℕ
category is_flush straight_high c d =
    if is_flush && is_royal straight_high
    then 10
    else if is_flush && is_some straight_high
    then 9
    else if c == 4
    then 8
    else if (c == 3) && (d == 2)
    then 7
    else if is_flush
    then 6
    else if is_some straight_high
    then 5
    else if c == 3
    then 4
    else if (c == 2) && (d == 2)
    then 3
    else if c == 2
    then 2
    else 1

-- `v` occurs `c` times and no value more often; the others occur `d` times at most, and one does.
pub record TopTwo (vs : List ℕ) (v c d : ℕ) : Type 0 where
  pub first : occurs v vs ≡ c
  pub most : (w : ℕ) → occurs w vs ≤ c
  pub others : (x : ℕ) → x ≢ v → occurs x vs ≤ d
  pub second : (d ≡ 0) ⊎ ((w : ℕ) × (w ≢ v) × (occurs w vs ≡ d))

category_one :
    (f : Bool) (s : Option ℕ) (c v : ℕ) (vs cards : List ℕ)
    → rank_value (classify f s ((c, v) ∷ []) vs cards) ≡ category f s c 0
unfolding classify rank_value category
category_one f s c v vs cards = ground arith

category_two :
    (f : Bool) (s : Option ℕ) (c v d w : ℕ) (r : List (ℕ × ℕ)) (vs cards : List ℕ)
    → rank_value (classify f s ((c, v) ∷ (d, w) ∷ r) vs cards) ≡ category f s c d
unfolding classify rank_value category
category_two f s c v d w r vs cards = ground arith

-- What `evaluate-category` says of a list of cards.
abbrev pub HasCategory : List ℕ → Type 0
HasCategory cards =
    (v : ℕ) × (c : ℕ) × (d : ℕ) × TopTwo (values cards) v c d
    × (rank_value (evaluate_cards cards)
        ≡ category (all_same (suits cards)) (check_straight (values cards)) c d)

HasCategory-of_counts :
    (x : ℕ) (xs : List ℕ) (k : List (ℕ × ℕ))
    → count_vec (count_values (values (x ∷ xs))) ≡ k
    → HasCategory (x ∷ xs)
unfolding evaluate_cards
HasCategory-of_counts x xs [] e = absurd (ground (arith, no_entry (values (x ∷ xs)) e (value_of x)))
HasCategory-of_counts x xs ((c, v) ∷ []) e = (
  v,
  c,
  0,
  record {
    first = (top_entry (values (x ∷ xs)) c v [] e).0;
    most = (top_entry (values (x ∷ xs)) c v [] e).1;
    others = λ y n. omega (arith, one_entry (values (x ∷ xs)) c v e y n);
    second = inl refl;
  },
  rw e (
      category_one (all_same (suits (x ∷ xs))) (check_straight (values (x ∷ xs))) c v
        (values (x ∷ xs)) (sort_by compare_cards (x ∷ xs))),
)
HasCategory-of_counts x xs ((c, v) ∷ (d, w) ∷ r) e =
    let (differ, often, others) = second_entry (values (x ∷ xs)) c v d w r e in
    (
      v,
      c,
      d,
      record {
        first = (top_entry (values (x ∷ xs)) c v ((d, w) ∷ r) e).0;
        most = (top_entry (values (x ∷ xs)) c v ((d, w) ∷ r) e).1;
        others = others;
        second = inr (w, differ, often);
      },
      rw e (
          category_two (all_same (suits (x ∷ xs))) (check_straight (values (x ∷ xs))) c v d w r
            (values (x ∷ xs)) (sort_by compare_cards (x ∷ xs))),
    )

evaluate_cards-category : (cards : List ℕ) → cards ≢ [] → HasCategory cards
evaluate_cards-category [] n = absurd (n refl)
evaluate_cards-category (x ∷ xs) n =
    HasCategory-of_counts x xs (count_vec (count_values (values (x ∷ xs)))) refl

-- The kind of rank is that of the table of ranks, for the flush test, the straight and the numbers
-- of the two most frequent values of the hand.
pub evaluate-category :
    (h : Hand)
    → h.cards ≢ []
    → (v : ℕ) × (c : ℕ) × (d : ℕ) × TopTwo (values h.cards) v c d
      × (rank_value (evaluate h)
          ≡ category (all_same (suits h.cards)) (check_straight (values h.cards)) c d)
unfolding evaluate
evaluate-category h n = evaluate_cards-category h.cards n
