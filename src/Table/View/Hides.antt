-- ===== src/Table/View/Hides.antt =====
-- What `player_view_state` of Server/src/lib.rs does not show.
use rust_poker.Game.{Game}
use rust_poker.Hand
use rust_poker.Hand.{Hand}
use rust_poker.Player
use rust_poker.Player.{Player, BroadcastPlayer, Addr}
use rust_poker.Store.{set_player}
use rust_poker.Table.{Table, player_at}

module _ {G : Game} where
  -- The table with another hand for the player at a node.
  abbrev pub with_hand : Addr → Hand → Table G → Table G
  with_hand a h t = record t { store = set_player a (record (player_at t a) { hand = h }) t.store }
