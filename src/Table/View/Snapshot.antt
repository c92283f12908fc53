-- ===== src/Table/View/Snapshot.antt =====
-- `snapshot_state` and `broadcast_state` of Server/src/lib.rs: what is written to the database and sent
-- to every client. The JSON values are records with their fields; the id of the game and its type's
-- name are left out.
use text.Mathlib.Text.{◌==◌ as str_eq}
use rust_poker.Base.{ℕ, List, Option, none, some, Bool, String, map, not, if◌then◌else◌}
use rust_poker.Game.{Game, GameView}
use rust_poker.Player
use rust_poker.Player.{Player, BroadcastPlayer, Addr}
use rust_poker.Table.{Table, addresses, player_at}
use rust_poker.Table.View.{turn_id}

pub record SnapshotPlayer : Type 0 where
  pub id : ℕ
  pub name : String
  pub wallet : ℕ
  pub folded : Bool

pub record Snapshot : Type 0 where
  pub event : String
  pub round : ℕ
  pub turn : Option ℕ
  pub pot : ℕ
  pub players : List SnapshotPlayer
  pub game : GameView
  pub winner : Option ℕ

pub record GameState : Type 0 where
  pub turn : Option ℕ
  pub pot : ℕ
  pub players : List BroadcastPlayer
  pub game : GameView

abbrev pub snapshot_player : Player → SnapshotPlayer
snapshot_player p = record { id = p.id; name = p.name; wallet = p.wallet; folded = p.folded }

module _ {G : Game} where
  -- The winner is the player at the head, at the end of a game.
  abbrev pub winner_id : String → Table G → Option ℕ
  winner_id event t =
      if not (str_eq event "end")
      then none
      else elim t.head [ none ↦ none | some a ↦ some (player_at t a).id ]

  unfoldable pub snapshot_state : String → Table G → Snapshot
  snapshot_state event t = record {
    event = event;
    round = G.get_round t.game;
    turn = turn_id t;
    pot = t.pot;
    players = map (λ a. snapshot_player (player_at t a)) (addresses t.players);
    game = G.to_broadcast t.game;
    winner = winner_id event t;
  }

  unfoldable pub broadcast_state : Table G → GameState
  broadcast_state t = record {
    turn = turn_id t;
    pot = t.pot;
    players = map (λ a. Player.to_broadcast (player_at t a)) (addresses t.players);
    game = G.to_broadcast t.game;
  }
