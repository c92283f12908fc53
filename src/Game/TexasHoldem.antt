-- ===== src/Game/TexasHoldem.antt =====
-- Poker/src/games/texasholdem.rs.
pub mod Laws
use rust_poker.Base.{
  ℕ, List, [], ◌++◌, Option, none, some, Bool, true, false, String, if◌then◌else◌, ◌==◌, length,
}
use rust_poker.Base.Text.{Text}
use rust_poker.Deck
use rust_poker.Deck.{Deck}
use rust_poker.Hand.{Hand}
use rust_poker.Player.{Player, PlayerNode, Addr}
use rust_poker.Store.{Store}
use rust_poker.Game.{Game, Action, refused, next_round, deal_loop, best_hand, winner_id}

pub record State : Type 0 where
  pub round : ℕ
  pub deck : Deck
  pub community_cards : Hand

unfoldable pub community_len : State → ℕ
community_len g = length g.community_cards.cards

unfoldable pub set_community_cards : Hand → State → State
set_community_cards hand g = record g { community_cards = hand }

unfoldable pub client_action : PlayerNode → List Text → State → (PlayerNode × State) × Action
client_action node parts g = ((node, g), refused "[BET]")

unfoldable pub advance_round : State → State
advance_round g = record g { round = next_round g.round }

unfoldable pub deal_to_player : Player → State → Player × State
deal_to_player p g =
    if p.folded
    then (p, g)
    else let (deck, cards) = Deck.deal 2 g.deck in
      (record p { hand = record { cards = p.hand.cards ++ cards } }, record g { deck = deck })

-- `self.community_cards.extend(self.deck.deal_face_up(n))`.
unfoldable pub deal_community : ℕ → State → State
deal_community n g =
    let (deck, cards) = Deck.deal_face_up n g.deck in
    record g { deck = deck; community_cards = record { cards = g.community_cards.cards ++ cards } }

unfoldable pub handle_round_action :
    ℕ → Option Addr → State × Store → Option ((State × Store) × Bool)
unfolding deal_to_player deal_community
handle_round_action fuel head (g, s) =
    if g.round == 0
    then elim head [
      | none ↦ some ((g, s), false)
      | some a ↦ elim (deal_loop deal_to_player fuel a a true (g, s)) [
        | none ↦ none
        | some gs ↦ some (gs, false)
      ]
    ]
    else if g.round == 1
    then some ((deal_community 3 g, s), false)
    else if g.round == 2
    then some ((deal_community 1 g, s), false)
    else if g.round == 3
    then some ((deal_community 1 g, s), false)
    else some ((g, s), true)

unfoldable pub start_game : (List ℕ → List ℕ) → State → State
start_game shuffle g = record {
  round = 0;
  deck = Deck.new shuffle true 1;
  community_cards = record { cards = [] };
}

-- The player's cards with those on the table.
unfoldable pub showdown_hand : State → Hand → Hand
showdown_hand g hand = record { cards = hand.cards ++ g.community_cards.cards }

unfoldable pub determine_winner : State → List (ℕ × Hand) → Option ℕ
unfolding showdown_hand
determine_winner g players = winner_id (best_hand (showdown_hand g) players)

-- `impl Game for TexasHoldem`.
unfoldable pub texas_holdem : Game
unfolding client_action advance_round handle_round_action deal_to_player start_game determine_winner
    showdown_hand
texas_holdem = record {
  State = State;
  new = record { round = 0; deck = record { cards = [] }; community_cards = record { cards = [] } };
  is_ante = λ _. false;
  get_round = λ g. g.round;
  advance_round = advance_round;
  get_deck = λ g. g.deck;
  client_action = client_action;
  handle_round_action = handle_round_action;
  deal_to_player = deal_to_player;
  start_game = start_game;
  determine_winner = determine_winner;
  to_broadcast = λ g. record { round = g.round; community_cards = some g.community_cards };
  showdown_hand = showdown_hand;
}
