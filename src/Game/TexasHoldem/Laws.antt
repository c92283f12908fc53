-- ===== src/Game/TexasHoldem/Laws.antt =====
-- The deal and the community cards of Poker/src/games/texasholdem.rs.
use rust_poker.Base.{
  ℕ, ==_iff, refl, ◌+◌, ◌≤◌, ◌<◌, ◌≡◌, List, ◌∷◌, Option, none, some, false, arith, map, length,
  length-append, length-map, if◌then◌else◌, ◌==◌,
}
use rust_poker.Deck
use rust_poker.Deck.{Deck}
use rust_poker.Deck.Laws.{deal_splits, deal_face_up-deal}
use rust_poker.Card.{from_encoded, flip_up}
use rust_poker.Deck.Weight.{weigh, weigh-append, weigh-deal}
use rust_poker.Player.{Addr}
use rust_poker.Store.{Store}
use rust_poker.Store.Links.{Ring}
use rust_poker.Game.Cards.{KeepsCards, Differ, held, deal_loop-keeps}
use rust_poker.Game.TexasHoldem.{
  State, community_len, deal_to_player, deal_community, advance_round, handle_round_action,
}

deal_to_player-keeps : (w : ℕ → ℕ) → KeepsCards deal_to_player (λ g. g.deck) w
unfolding deal_to_player
deal_to_player-keeps w p g =
    ground (arith, weigh-deal w 2 g.deck, weigh-append w p.hand.cards (Deck.deal 2 g.deck).1)

-- The first round of Texas hold'em ends on a ring of two or more and keeps all cards: for every
-- weight of cards, the hands and the deck together weigh what they weighed before.
pub texas_holdem-keeps_cards :
    (w : ℕ → ℕ) (s : Store) (head : Addr) (rest : List Addr) (fuel : ℕ) (g : State)
    → g.round ≡ 0
    → Ring s head rest
    → Differ (head ∷ rest)
    → length (head ∷ rest) < fuel
    → (g' : State) × (s' : Store) × (handle_round_action fuel (some head) (g, s)
        ≡ some ((g', s'), false))
      × (held w s' (head ∷ rest) + weigh w g'.deck.cards
          ≡ held w s (head ∷ rest) + weigh w g.deck.cards)
unfolding handle_round_action
texas_holdem-keeps_cards w s head rest fuel g zero_round r d h =
    let ((g', s'), e, keeps) =
      deal_loop-keeps deal_to_player (λ g. g.deck) w (deal_to_player-keeps w) s head rest fuel g r d
        h in
    (g', s', rw (e, (==_iff g.round 0).1 zero_round), keeps)

deal_community-length :
    (n : ℕ) (g : State)
    → n ≤ length g.deck.cards
    → (community_len (deal_community n g) ≡ community_len g + n)
      × (length (deal_community n g).deck.cards + n ≡ length g.deck.cards)
      × ((deal_community n g).round ≡ g.round)
unfolding deal_community community_len
deal_community-length n g h = rw (deal_face_up-deal n g.deck) (
  ground (
    arith,
    length-append g.community_cards.cards
        (map (λ c. (flip_up (from_encoded c)).byte) (Deck.deal n g.deck).1),
    length-map (λ c. (flip_up (from_encoded c)).byte) (Deck.deal n g.deck).1,
    (deal_splits n g.deck).1,
  ),
  omega (arith, (deal_splits n g.deck).2),
  refl,
)

-- One street: the action of the round, then `advance_round`.
unfoldable pub street : ℕ → Option Addr → State × Store → Option (State × Store)
street fuel head gs = elim (handle_round_action fuel head gs) [
  | none ↦ none
  | some ((g, s), over) ↦ some (advance_round g, s)
]

module _ (fuel : ℕ) (head : Option Addr) (s : Store) where
  street_lem :
      (g : State) (n r : ℕ)
      → (g.round ≡ r) × (r < 4)
      → handle_round_action fuel head (g, s) ≡ some ((deal_community n g, s), false)
      → n ≤ length g.deck.cards
      → (g' : State) × (street fuel head (g, s) ≡ some (g', s))
        × (g'.round ≡ r + 1)
        × (community_len g' ≡ community_len g + n)
        × (length g'.deck.cards + n ≡ length g.deck.cards)
  unfolding street advance_round community_len
  street_lem g n r (at, small) e h =
      let (grown, shrunk, same) = deal_community-length n g h in
      (advance_round (deal_community n g), rw (e, street), omega (arith, same), grown, shrunk)

  at_round :
      (g : State) (r : ℕ)
      → g.round ≡ r
      → (0 < r) × (r < 4)
      → handle_round_action fuel head (g, s)
        ≡ some ((deal_community (if r == 1 then 3 else 1) g, s), false)
  unfolding handle_round_action
  at_round g r e h = ground arith

  -- The flop, the turn and the river, each followed by `advance_round`, put three, one and one card
  -- on the table, take five from the deck, and leave the players' nodes alone, if the deck has five.
  flop_turn_river :
      (g : State)
      → g.round ≡ 1
      → 5 ≤ length g.deck.cards
      → (a b c : State) × (street fuel head (g, s) ≡ some (a, s))
        × (street fuel head (a, s) ≡ some (b, s))
        × (street fuel head (b, s) ≡ some (c, s))
        × (community_len a ≡ community_len g + 3)
        × (community_len b ≡ community_len g + 4)
        × (community_len c ≡ community_len g + 5)
        × (length c.deck.cards + 5 ≡ length g.deck.cards)
        × (c.round ≡ 4)
  flop_turn_river g one enough =
      let (a, ea, ra, ca, da) =
        street_lem g 3 1 (one, omega arith) (at_round g 1 one (omega arith)) (omega arith) in
      let two : a.round ≡ 2 = ra in
      let (b, eb, rb, cb, db) =
        street_lem a 1 2 (two, omega arith) (at_round a 2 two (omega arith)) (omega arith) in
      let three : b.round ≡ 3 = rb in
      let (c, ec, rc, cc', dc) =
        street_lem b 1 3 (three, omega arith) (at_round b 3 three (omega arith)) (omega arith) in
      (a, b, c, ea, eb, ec, omega arith, omega arith, omega arith, omega arith, rc)
