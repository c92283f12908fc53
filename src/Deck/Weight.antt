-- ===== src/Deck/Weight.antt =====
-- Weights of lists of cards, by which cards are counted: with the weight 1 the number of cards, with
-- the weight 1 at one card the number of its copies. For Poker/src/deck.rs.
use rust_poker.Base.{ℕ, ◌+◌, ◌≡◌, List, [], ◌∷◌, ◌++◌, map, arith, bit_or, sym, ap, ◌∙◌}
use rust_poker.Card.{shl8}
use rust_poker.Deck.{Deck, deal, deal_face_up}
use rust_poker.Deck.Laws.{deal_splits}

abbrev pub weigh : (ℕ → ℕ) → List ℕ → ℕ
weigh w [] = 0
weigh w (x ∷ xs) = w x + weigh w xs

-- A weight that does not see the face-up mark.
abbrev pub IsFaceBlind : (ℕ → ℕ) → Type 0
IsFaceBlind w = (c : ℕ) → w (bit_or c (shl8 1 6)) ≡ w c

pub weigh-append : (w : ℕ → ℕ) (xs ys : List ℕ) → weigh w (xs ++ ys) ≡ weigh w xs + weigh w ys
weigh-append w [] ys = omega arith
weigh-append w (x ∷ xs) ys = omega (arith, weigh-append w xs ys)

pub weigh-deal :
    (w : ℕ → ℕ) (n : ℕ) (d : Deck)
    → weigh w (deal n d).0.cards + weigh w (deal n d).1 ≡ weigh w d.cards
weigh-deal w n d =
    sym (weigh-append w (deal n d).0.cards (deal n d).1) ∙ ap (weigh w) (deal_splits n d).0

weigh-turned :
    (w : ℕ → ℕ) (xs : List ℕ)
    → IsFaceBlind w
    → weigh w (map (λ c. bit_or c (shl8 1 6)) xs) ≡ weigh w xs
weigh-turned w [] b = omega arith
weigh-turned w (x ∷ xs) b = omega (arith, b x, weigh-turned w xs b)

pub weigh-deal_face_up :
    (w : ℕ → ℕ) (n : ℕ) (d : Deck)
    → IsFaceBlind w
    → weigh w (deal_face_up n d).0.cards + weigh w (deal_face_up n d).1 ≡ weigh w d.cards
unfolding deal_face_up
weigh-deal_face_up w n d b = omega (arith, weigh-deal w n d, weigh-turned w (deal n d).1 b)
