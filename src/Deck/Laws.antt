-- ===== src/Deck/Laws.antt =====
-- What a deck holds and what dealing moves, of Poker/src/deck.rs.
use mathlib.Core.Logic.{∥∥₁_elim}
use mathlib.Core.List.{flat_map, Perm, Permᴰ}
use native.Mathlib.Nat.{ℕ_set}
use rust_poker.Base.{
  ℕ, zero, suc, ◌+◌, ◌*◌, ◌-◌, ◌%◌, ◌≡◌, refl, ◌∙◌, min, Bool, true, false, List, [], ◌∷◌, ◌++◌,
  map, arith, ◌==◌, leb, length, occurs, length-drop, length-take, take-append-drop, holds_below,
  holds_at, ◌||◌,
}
use rust_poker.Card.{from_encoded, flip_up}
use rust_poker.Card.Laws.{IsCard}
use rust_poker.Deck.{Deck, range, one_deck, new, deal, deal_face_up}

pub occurs-append : (a : ℕ) (xs ys : List ℕ) → occurs a (xs ++ ys) ≡ occurs a xs + occurs a ys
occurs-append a [] ys = omega arith
occurs-append a (x ∷ xs) ys = ground (arith, occurs-append a xs ys)

occurs-permᴰ : (a : ℕ) {xs ys : List ℕ} → Permᴰ xs ys → occurs a xs ≡ occurs a ys
occurs-permᴰ a Permᴰ.nil = refl
occurs-permᴰ a (Permᴰ.cons e p) = ground (arith, occurs-permᴰ a p)
occurs-permᴰ a (Permᴰ.swap e e') = ground arith
occurs-permᴰ a (Permᴰ.trans p q) = occurs-permᴰ a p ∙ occurs-permᴰ a q

-- Rearranging a list changes no count.
pub occurs-perm : (a : ℕ) {xs ys : List ℕ} → Perm xs ys → occurs a xs ≡ occurs a ys
occurs-perm a p = ∥∥₁_elim p (ℕ_set _ _) (occurs-permᴰ a)

copies : List ℕ → ℕ → ℕ → List ℕ
copies xs from n = flat_map (λ _. xs) (range from n)

occurs-copies : (a : ℕ) (xs : List ℕ) (from n : ℕ) → occurs a (copies xs from n) ≡ n * occurs a xs
unfolding copies flat_map
occurs-copies a xs from zero = omega arith
occurs-copies a xs from (suc n) =
    grind (arith, occurs-append a xs (copies xs (suc from) n), occurs-copies a xs (suc from) n)

once : ℕ → Bool
once c = leb (c % 16) 0 || leb 14 (c % 16) || (occurs c one_deck == 1)

once_table : holds_below 64 once ≡ true
unfolding holds_below once one_deck flat_map
once_table = refl

occurs-one_deck : (c : ℕ) → IsCard c → occurs c one_deck ≡ 1
unfolding once
occurs-one_deck c h = ground (arith, holds_at 64 once c once_table h.0)

-- `Deck::new` with `num_decks` decks holds every real card exactly `num_decks` times, shuffled or
-- not, if the shuffle rearranges.
occurs-new :
    (shuffle : List ℕ → List ℕ) (shuffled : Bool) (num_decks c : ℕ)
    → ((xs : List ℕ) → Perm (shuffle xs) xs)
    → IsCard c
    → occurs c (new shuffle shuffled num_decks).cards ≡ num_decks
unfolding new copies
occurs-new shuffle true n c p h = grind (
  arith,
  occurs-perm c (p (copies one_deck 0 n)),
  occurs-copies c one_deck 0 n,
  occurs-one_deck c h,
)
occurs-new shuffle false n c p h = grind (arith, occurs-copies c one_deck 0 n, occurs-one_deck c h)

-- `deal` splits the deck: what is left, followed by what is dealt, is the deck as it was, and the
-- cards dealt are as many as asked for, or all if there are fewer.
pub deal_splits :
    (n : ℕ) (d : Deck)
    → ((deal n d).0.cards ++ (deal n d).1 ≡ d.cards)
      × (length (deal n d).1 ≡ min n (length d.cards))
      × (length (deal n d).0.cards ≡ length d.cards - n)
unfolding deal
deal_splits n d =
    let at = length d.cards - min n (length d.cards) in
    (
      take-append-drop at d.cards,
      omega (arith, length-drop at d.cards),
      omega (arith, length-take at d.cards),
    )

-- `deal_face_up` takes the cards that `deal` takes, each turned up as `Card::flip_up` does.
pub deal_face_up-deal :
    (n : ℕ) (d : Deck)
    → (deal_face_up n d ≡ ((deal n d).0, map (λ c. (flip_up (from_encoded c)).byte) (deal n d).1))
unfolding deal_face_up flip_up from_encoded
deal_face_up-deal n d = refl
