-- ===== src/Hand/Evaluate/Limits.antt =====
-- Hands of more than five cards in Poker/src/hand.rs: where `evaluate` looks at all cards at once.
use rust_poker.Base.{
  ℕ, ◌+◌, ◌≤◌, ◌-◌, ◌≡◌, ◌≢◌, refl, sym, ◌∙◌, List, [], ◌∷◌, Option, none, Bool, true, false, arith,
  contains, is_some, not, holds_below, holds_at, inl, inr, Bool-cases,
}
use rust_poker.Base.Sort.{sort_by}
use rust_poker.Hand.{Hand}
use rust_poker.Hand.Rank.{rank_value}
use rust_poker.Hand.Straight.{check_straight}
use rust_poker.Hand.Evaluate.{suit_of, suits, values, all_same, evaluate}
use rust_poker.Hand.Evaluate.Laws.{category, evaluate-category}

misses : ℕ → ℕ → Bool
misses x y = not (is_some (check_straight (1 ∷ 2 ∷ 3 ∷ 4 ∷ 5 ∷ (x + 7) ∷ (y + 7) ∷ [])))

misses_table : holds_below 7 (λ x. holds_below 7 (misses x)) ≡ true
unfolding holds_below misses check_straight sort_by
misses_table = refl

none_of_not-is_some : (o : Option ℕ) → not (is_some o) ≡ true → o ≡ none
none_of_not-is_some o h = ground arith

-- Ace to five with two more cards from seven to king is not found to be a straight.
pub check_straight-wheel_of_seven :
    (x y : ℕ)
    → 7 ≤ x
    → x ≤ 13
    → 7 ≤ y
    → y ≤ 13
    → check_straight (1 ∷ 2 ∷ 3 ∷ 4 ∷ 5 ∷ x ∷ y ∷ []) ≡ none
unfolding misses
check_straight-wheel_of_seven x y hx kx hy ky =
    let e : x - 7 + 7 ≡ x = omega arith in
    let e' : y - 7 + 7 ≡ y = omega arith in
    let row = holds_at 7 _ (x - 7) misses_table (omega arith) in
    let cell = holds_at 7 (misses (x - 7)) (y - 7) row (omega arith) in
    none_of_not-is_some _ (rw (e, e') at cell)

same_suit :
    (c x : ℕ) (xs : List ℕ)
    → all_same (suits (x ∷ xs)) ≡ true
    → contains (x ∷ xs) c ≡ true
    → suit_of c ≡ suit_of x
same_suit c x [] s m = ground arith
same_suit c x (y ∷ ys) s m = ground (arith, same_suit c y ys)

mixed_suits :
    (cards : List ℕ) (c d : ℕ)
    → contains cards c ≡ true
    → contains cards d ≡ true
    → suit_of c ≢ suit_of d
    → all_same (suits cards) ≡ false
mixed_suits [] c d m k n = absurd (ground arith)
mixed_suits (x ∷ xs) c d m k n = elim (Bool-cases (all_same (suits (x ∷ xs)))) [
  | inl s ↦ absurd (n (same_suit c x xs s m ∙ sym (same_suit d x xs s k)))
  | inr s ↦ s
]

category_mixed :
    (s : Option ℕ) (c d : ℕ)
    → (category false s c d ≢ 6) × (category false s c d ≢ 9) × (category false s c d ≢ 10)
unfolding category
category_mixed s c d = (λ e. ground arith, λ e. ground arith, λ e. ground arith)

-- A hand of two suits is no flush of any kind, also where five of its cards share a suit.
pub evaluate-mixed_suits :
    (h : Hand) (c d : ℕ)
    → contains h.cards c ≡ true
    → contains h.cards d ≡ true
    → suit_of c ≢ suit_of d
    → (rank_value (evaluate h) ≢ 6) × (rank_value (evaluate h) ≢ 9) × (rank_value (evaluate h) ≢ 10)
evaluate-mixed_suits h c d m k n =
    let (v, a, b, _, e) = evaluate-category h (λ z. ground arith) in
    rw (e, mixed_suits h.cards c d m k n) (category_mixed (check_straight (values h.cards)) a b)
