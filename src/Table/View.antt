-- ===== src/Table/View.antt =====
-- `player_view_state` of Server/src/lib.rs: what a web client gets to see. The JSON value is a record
-- with its fields.
pub mod Hides
pub mod Snapshot
use rust_poker.Base.{ℕ, List, [], ◌∷◌, Option, none, some, Bool, map}
use rust_poker.Game.{Game, GameView}
use rust_poker.Player
use rust_poker.Player.{Player, BroadcastPlayer, to_stream}
use rust_poker.Table.{Table, Showdown, addresses, lookup, player_at, is_running}

pub record TableView : Type 0 where
  pub turn : Option ℕ
  pub pot : ℕ
  pub is_running : Bool
  pub players : List BroadcastPlayer
  pub game : GameView
  pub me : Option BroadcastPlayer
  pub showdown : Option Showdown

module _ {G : Game} where
  -- The ids of a pointer's player.
  abbrev pub turn_id : Table G → Option ℕ
  turn_id t = elim t.turn [ none ↦ none | some a ↦ some (player_at t a).id ]

  abbrev pub own_view : Option ℕ → Table G → Option BroadcastPlayer
  own_view none t = none
  own_view (some id) t = elim (lookup id t.players) [
    | none ↦ none
    | some a ↦ some (to_stream (player_at t a))
  ]

  unfoldable pub player_view_state : Option ℕ → Table G → TableView
  player_view_state viewer t = record {
    turn = turn_id t;
    pot = t.pot;
    is_running = is_running t;
    players = map (λ a. Player.to_broadcast (player_at t a)) (addresses t.players);
    game = G.to_broadcast t.game;
    me = own_view viewer t;
    showdown = t.showdown;
  }
