-- ===== src/Game/SevenCardStud.antt =====
-- Poker/src/games/sevencardstud.rs.
pub mod Laws
use rust_poker.Base.{
  ℕ, List, [], ◌++◌, Option, none, some, Bool, true, false, String, if◌then◌else◌, ◌==◌, ltb, leb,
  ◌&&◌,
}
use rust_poker.Base.Text.{Text}
use rust_poker.Deck
use rust_poker.Deck.{Deck}
use rust_poker.Hand.{Hand}
use rust_poker.Player.{Player, PlayerNode, Addr}
use rust_poker.Store.{Store}
use rust_poker.Game.{Game, Action, refused, next_round, deal_loop, best_hand, winner_id}

pub record State : Type 0 where
  pub round : ℕ
  pub deck : Deck

unfoldable pub client_action : PlayerNode → List Text → State → (PlayerNode × State) × Action
client_action node parts g = ((node, g), refused "[BET]")

-- How many cards go face down and face up in a round.
unfoldable pub cards_in_round : ℕ → ℕ × ℕ
cards_in_round round =
    if round == 0
    then (2, 1)
    else if leb 1 round && leb round 3
    then (0, 1)
    else if round == 4
    then (1, 0)
    else (0, 0)

unfoldable pub advance_round : State → State
advance_round g = record g { round = next_round g.round }

unfoldable pub deal_to_player : Player → State → Player × State
unfolding cards_in_round
deal_to_player p g =
    if p.folded
    then (p, g)
    else let (down, up) = cards_in_round g.round in
      let (deck, hidden) = Deck.deal down g.deck in
      let (deck', shown) = Deck.deal_face_up up deck in
      (
        record p { hand = record { cards = (p.hand.cards ++ hidden) ++ shown } },
        record g { deck = deck' },
      )

unfoldable pub handle_round_action :
    ℕ → Option Addr → State × Store → Option ((State × Store) × Bool)
unfolding deal_to_player
handle_round_action fuel head (g, s) = if ltb 4 g.round then some ((g, s), true) else elim head [
  | none ↦ some ((g, s), false)
  | some a ↦ elim (deal_loop deal_to_player fuel a a true (g, s)) [
    | none ↦ none
    | some gs ↦ some (gs, false)
  ]
]

unfoldable pub start_game : (List ℕ → List ℕ) → State → State
start_game shuffle g = record { round = 0; deck = Deck.new shuffle true 1 }

unfoldable pub determine_winner : State → List (ℕ × Hand) → Option ℕ
determine_winner g players = winner_id (best_hand (λ hand. hand) players)

-- `impl Game for SevenCardStud`.
unfoldable pub seven_card_stud : Game
unfolding client_action advance_round handle_round_action deal_to_player start_game determine_winner
seven_card_stud = record {
  State = State;
  new = record { round = 0; deck = record { cards = [] } };
  is_ante = λ _. true;
  get_round = λ g. g.round;
  advance_round = advance_round;
  get_deck = λ g. g.deck;
  client_action = client_action;
  handle_round_action = handle_round_action;
  deal_to_player = deal_to_player;
  start_game = start_game;
  determine_winner = determine_winner;
  to_broadcast = λ g. record { round = g.round; community_cards = none };
  showdown_hand = λ _ hand. hand;
}
