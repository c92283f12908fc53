-- ===== src/Deck.antt =====
-- Poker/src/deck.rs. A deck is a vector of card bytes, dealt from its end. `rand`'s shuffle is the
-- argument `shuffle`: the code relies on its giving a rearrangement.
pub mod Laws
pub mod Weight
use mathlib.Core.List.{flat_map}
use rust_poker.Base.{
  ℕ, zero, suc, ◌+◌, ◌-◌, min, Bool, List, [], ◌∷◌, ◌++◌, map, if◌then◌else◌, length, take, drop,
  bit_or,
}
use rust_poker.Card.{Card, from_suit_value, shl8}

pub record Deck : Type 0 where
  pub cards : List ℕ

-- `from..from + n`.
abbrev range : ℕ → ℕ → List ℕ
range from zero = []
range from (suc n) = from ∷ range (suc from) n

-- The 52 cards of one deck: suits 0 to 3, values 1 to 13.
unfoldable pub one_deck : List ℕ
unfolding from_suit_value
one_deck =
    flat_map (λ suit. map (λ value. (from_suit_value suit value).byte) (range 1 13)) (range 0 4)

unfoldable pub new : (List ℕ → List ℕ) → Bool → ℕ → Deck
unfolding one_deck
new shuffle shuffled num_decks =
    let decks = flat_map (λ _. one_deck) (range 0 num_decks) in
    if shuffled then record { cards = shuffle decks } else record { cards = decks }

-- `split_off` keeps the front in the deck and returns the rest.
unfoldable pub deal : ℕ → Deck → Deck × List ℕ
deal num_deal d =
    let len = length d.cards in
    let at = len - min num_deal len in (record { cards = take at d.cards }, drop at d.cards)

unfoldable pub deal_face_up : ℕ → Deck → Deck × List ℕ
deal_face_up num_deal d =
    let (rest, dealt) = deal num_deal d in (rest, map (λ card. bit_or card (shl8 1 6)) dealt)
