-- ===== src/Tests.antt =====
-- Examples: a table of three players that the examples of the children use, and short runs.
pub mod Hands
pub mod Games
pub mod Tables
pub mod Runs
pub mod Requests
pub mod Texts
use rust_poker.Base.{
  ℕ, ◌+◌, ◌%◌, List, [], ◌∷◌, Option, none, some, Bool, true, false, if◌then◌else◌, ◌==◌,
}
use rust_poker.Game.{Game}
use rust_poker.Game.FiveCardDraw.{five_card_draw}
use rust_poker.Player.{Player, PlayerNode, Addr, Stream}
use rust_poker.Store.{Store}
use rust_poker.Table.{Table}

abbrev pub some_player : ℕ → List ℕ → Player
some_player id cards = record {
  id = id;
  name = "Ada";
  wallet = 100;
  hand = record { cards = cards };
  bet = 50;
  folded = false;
}

-- Node `a` of a ring of three, with the player `a + 1`.
abbrev pub ring_node : Option Stream → Addr → PlayerNode
ring_node stream a = record {
  player = some_player (a + 1) ((a + 2) ∷ (a + 18) ∷ (a + 36) ∷ 8 ∷ 25 ∷ []);
  stream = stream;
  nextf = some ((a + 1) % 3);
  prevf = some ((a + 2) % 3);
  next = some ((a + 1) % 3);
  prev = some ((a + 2) % 3);
}

abbrev pub ring_store : Option Stream → Store
ring_store stream = record { fresh = 3; node = ring_node stream }

abbrev pub three_seats : Option Stream → Table five_card_draw
three_seats stream = record {
  store = ring_store stream;
  players = (1, 0) ∷ (2, 1) ∷ (3, 2) ∷ [];
  head = some 0;
  bettor = some 0;
  blind = some 0;
  turn = some 1;
  bet = 50;
  pot = 150;
  game = five_card_draw.new;
  showdown = none;
  next_game_players = [];
  turn_started_at = some 0;
  log = [];
}
