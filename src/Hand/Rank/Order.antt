-- ===== src/Hand/Rank/Order.antt =====
-- The `Ord` instance of `HandRank` in Poker/src/hand.rs, and the keys by which it compares.
use mathlib.Core.List.{reverse-reverse, reverse-append}
use rust_poker.Base.{
  ℕ, ◌<◌, ◌∷◌, ◌++◌, List, [], some, compare, Ordering, reverse, ◌≡◌, refl, sym, ap, ◌∙◌, arith,
}
use rust_poker.Base.Order.{
  compare_list, compare_pair, IsTotalOrder, ℕ-IsTotalOrder, list-IsTotalOrder, pair-IsTotalOrder,
}
use rust_poker.Hand.Rank.{
  HandRank, no_cards, high_card, one_pair, two_pair, three_of_a_kind, straight, flush, full_house,
  four_of_a_kind, straight_flush, royal_flush, cmp,
}

-- Rank value, first and second value, kickers from the last, cards.
abbrev pub Key : Type 0
Key = ℕ × (ℕ × (ℕ × (List ℕ × List ℕ)))

abbrev pub key : HandRank → Key
key no_cards = (0, (0, (0, ([], []))))
key (high_card v c) = (1, (0, (0, (reverse v, c))))
key (one_pair v k c) = (2, (v, (0, (reverse k, c))))
key (two_pair v w k c) = (3, (v, (w, (reverse k, c))))
key (three_of_a_kind v k c) = (4, (v, (0, (reverse k, c))))
key (straight v c) = (5, (v, (0, ([], c))))
key (flush v c) = (6, (0, (0, (reverse v, c))))
key (full_house v w c) = (7, (v, (w, ([], c))))
key (four_of_a_kind v k c) = (8, (v, (0, (reverse k, c))))
key (straight_flush v c) = (9, (v, (0, ([], c))))
key (royal_flush c) = (10, (0, (0, ([], c))))

abbrev pub compare_key : Key → Key → Ordering
compare_key =
    compare_pair compare
      (compare_pair compare (compare_pair compare (compare_pair compare_list compare_list)))

Key-IsTotalOrder : IsTotalOrder compare_key
Key-IsTotalOrder = pair-IsTotalOrder ℕ-IsTotalOrder (
    pair-IsTotalOrder ℕ-IsTotalOrder
      (pair-IsTotalOrder ℕ-IsTotalOrder (pair-IsTotalOrder list-IsTotalOrder list-IsTotalOrder)))

-- The order as a total function.
abbrev pub order : HandRank → HandRank → Ordering
order a b = compare_key (key a) (key b)

-- `cmp` never panics: on every two ranks it gives the lexicographic order of the rank value, the
-- values, the kickers compared from the last to the first, and the cards.
pub cmp-key : (a b : HandRank) → cmp a b ≡ some (compare_key (key a) (key b))
unfolding cmp
cmp-key no_cards no_cards = refl
cmp-key (high_card v c) (high_card w d) = ground arith
cmp-key (one_pair v k c) (one_pair w l d) = ground arith
cmp-key (two_pair v v' k c) (two_pair w w' l d) = ground arith
cmp-key (three_of_a_kind v k c) (three_of_a_kind w l d) = ground arith
cmp-key (straight v c) (straight w d) = ground arith
cmp-key (flush v c) (flush w d) = ground arith
cmp-key (full_house v v' c) (full_house w w' d) = ground arith
cmp-key (four_of_a_kind v k c) (four_of_a_kind w l d) = ground arith
cmp-key (straight_flush v c) (straight_flush w d) = ground arith
cmp-key (royal_flush c) (royal_flush d) = ground arith
cmp-key _ _ = refl

reverse_injective : (v w : List ℕ) → reverse v ≡ reverse w → v ≡ w
reverse_injective v w e = sym (reverse-reverse v) ∙ ap reverse e ∙ reverse-reverse w

key_injective : (a b : HandRank) → key a ≡ key b → a ≡ b
key_injective no_cards no_cards e = refl
key_injective (high_card v c) (high_card w d) e = ground (arith, reverse_injective v w)
key_injective (one_pair v k c) (one_pair w l d) e = ground (arith, reverse_injective k l)
key_injective (two_pair v v' k c) (two_pair w w' l d) e = ground (arith, reverse_injective k l)
key_injective (three_of_a_kind v k c) (three_of_a_kind w l d) e =
    ground (arith, reverse_injective k l)
key_injective (straight v c) (straight w d) e = ground arith
key_injective (flush v c) (flush w d) e = ground (arith, reverse_injective v w)
key_injective (full_house v v' c) (full_house w w' d) e = ground arith
key_injective (four_of_a_kind v k c) (four_of_a_kind w l d) e =
    ground (arith, reverse_injective k l)
key_injective (straight_flush v c) (straight_flush w d) e = ground arith
key_injective (royal_flush c) (royal_flush d) e = ground arith
key_injective _ _ e = ground arith

pub order-IsTotalOrder : IsTotalOrder order
order-IsTotalOrder = record {
  eq_of = λ a b h. key_injective a b (Key-IsTotalOrder.eq_of (key a) (key b) h);
  eq_self = λ a. Key-IsTotalOrder.eq_self (key a);
  swapped = λ a b. Key-IsTotalOrder.swapped (key a) (key b);
  lt_trans = λ a b c. Key-IsTotalOrder.lt_trans (key a) (key b) (key c);
}

some-eq {ℓ} : {A : Type ℓ} (x y : A) → some x ≡ some y → x ≡ y
some-eq x y e = cc

pub order_of_cmp : (a b : HandRank) (o : Ordering) → cmp a b ≡ some o → order a b ≡ o
order_of_cmp a b o h = some-eq (order a b) o (sym (cmp-key a b) ∙ h)

-- Two high-card ranks whose last, lowest values differ are ordered by these alone, whatever the
-- higher values are.
pub cmp-high_card_lowest :
    (v w c d : List ℕ) (x y : ℕ)
    → x < y
    → cmp (high_card (v ++ x ∷ []) c) (high_card (w ++ y ∷ []) d) ≡ some Ordering.lt
cmp-high_card_lowest v w c d x y h =
    cmp-key (high_card (v ++ x ∷ []) c) (high_card (w ++ y ∷ []) d)
    ∙ rw (reverse-append v (x ∷ []), reverse-append w (y ∷ [])) (ground arith)
