-- ===== src/Game/FiveCardDraw.antt =====
-- Poker/src/games/fivecarddraw.rs.
pub mod Laws
pub mod Deals
use rust_poker.Base.{
  ℕ, zero, suc, ◌+◌, ◌-◌, ◌*◌, List, [], ◌∷◌, ◌++◌, Option, none, some, Bool, true, false, not,
  ◌&&◌, String, if◌then◌else◌, ◌==◌, ltb, leb, length,
}
use rust_poker.Base.Text
use rust_poker.Base.Text.{Text, codes, same_text}
use rust_poker.Card.{from_encoded, decode}
use rust_poker.Deck
use rust_poker.Deck.{Deck}
use rust_poker.Hand.{Hand}
use rust_poker.Player.{Player, PlayerNode, Addr}
use rust_poker.Store.{Store}
use rust_poker.Game.{
  Game, Action, done, refused, panics, next_round, deal_loop, best_hand, winner_id,
}

pub record State : Type 0 where
  pub round : ℕ
  pub deck : Deck

-- `position` and `remove` of one card: the hand without its first copy.
unfoldable pub remove_card : ℕ → List ℕ → Option (List ℕ)
remove_card card [] = none
remove_card card (c ∷ cs) =
    if c == card
    then some cs
    else elim (remove_card card cs) [ none ↦ none | some rest ↦ some (c ∷ rest) ]

-- The loop over the discarded cards.
unfoldable pub remove_all : List ℕ → List ℕ → Option (List ℕ)
unfolding remove_card
remove_all [] hand = some hand
remove_all (d ∷ ds) hand = elim (remove_card d hand) [
  | none ↦ none
  | some rest ↦ remove_all ds rest
]

-- The test before four cards go: `temp_hand[0]` panics on an empty hand.
unfoldable pub keeps_ace : List ℕ → Action
keeps_ace [] = panics
keeps_ace (c ∷ _) =
    if (decode (from_encoded c)).1 == 1
    then done
    else refused "[ERROR] Can only discard 4 if last card is an ace!!"

abbrev replaced : PlayerNode → State → List ℕ → ℕ → PlayerNode × State
replaced node g kept n =
    let (deck, dealt) = Deck.deal n g.deck in
    (
      record node { player = record (node.player) { hand = record { cards = kept ++ dealt } } },
      record g { deck = deck },
    )

unfoldable pub replace_cards : PlayerNode → List ℕ → State → (PlayerNode × State) × Action
unfolding remove_all keeps_ace
replace_cards node discard g =
    if ltb 4 (length discard)
    then ((node, g), refused "[ERROR] Discard less cards!!")
    else elim (remove_all discard node.player.hand.cards) [
      | none ↦ ((node, g), refused "Card not in hand")
      | some kept ↦ elim (if length discard == 4 then keeps_ace kept else done) [
        | done ↦ (replaced node g kept (length discard), done)
        | refused e ↦ ((node, g), refused e)
        | panics ↦ ((node, g), panics)
      ]
    ]

-- `collect` into a `Result`.
unfoldable pub parse_all : List Text → Option (List ℕ)
unfolding Text.parse
parse_all [] = some []
parse_all (s ∷ rest) = elim (Text.parse 255 s) [
  | none ↦ none
  | some c ↦ elim (parse_all rest) [ none ↦ none | some cs ↦ some (c ∷ cs) ]
]

unfoldable pub client_action : PlayerNode → List Text → State → (PlayerNode × State) × Action
unfolding replace_cards parse_all
client_action node [] g =
    if g.round == 1
    then ((node, g), refused "[ERROR] REPLACE CARDS\n")
    else ((node, g), refused "[BET]")
client_action node (command ∷ rest) g =
    if not (g.round == 1)
    then ((node, g), refused "[BET]")
    else if same_text command (codes "REPLACE_CARDS")
    then elim (parse_all rest) [
      | none ↦ ((node, g), refused "[ERROR] INVALID CARD\n")
      | some discard ↦ replace_cards node discard g
    ]
    else ((node, g), refused "[ERROR] REPLACE CARDS\n")

unfoldable pub advance_round : State → State
advance_round g = record g { round = next_round g.round }

unfoldable pub deal_to_player : Player → State → Player × State
deal_to_player p g =
    if p.folded
    then (p, g)
    else let (deck, cards) = Deck.deal 5 g.deck in
      (record p { hand = record { cards = p.hand.cards ++ cards } }, record g { deck = deck })

-- With no head there is nobody to deal to.
unfoldable pub handle_round_action :
    ℕ → Option Addr → State × Store → Option ((State × Store) × Bool)
unfolding deal_to_player
handle_round_action fuel head (g, s) =
    if g.round == 0
    then elim head [
      | none ↦ some ((g, s), false)
      | some a ↦ elim (deal_loop deal_to_player fuel a a true (g, s)) [
        | none ↦ none
        | some gs ↦ some (gs, false)
      ]
    ]
    else some ((g, s), ltb 2 g.round)

unfoldable pub start_game : (List ℕ → List ℕ) → State → State
start_game shuffle g = record { round = 0; deck = Deck.new shuffle true 1 }

unfoldable pub determine_winner : State → List (ℕ × Hand) → Option ℕ
determine_winner g players = winner_id (best_hand (λ hand. hand) players)

-- `impl Game for FiveCardDraw`.
unfoldable pub five_card_draw : Game
unfolding client_action advance_round handle_round_action deal_to_player start_game determine_winner
five_card_draw = record {
  State = State;
  new = record { round = 0; deck = record { cards = [] } };
  is_ante = λ _. true;
  get_round = λ g. g.round;
  advance_round = advance_round;
  get_deck = λ g. g.deck;
  client_action = client_action;
  handle_round_action = handle_round_action;
  deal_to_player = deal_to_player;
  start_game = start_game;
  determine_winner = determine_winner;
  to_broadcast = λ g. record { round = g.round; community_cards = none };
  showdown_hand = λ _ hand. hand;
}
