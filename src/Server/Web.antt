-- ===== src/Server/Web.antt =====
-- The web server's requests, Server/src/web.rs: commands, joining, and the thread that watches a
-- table. HTTP, JSON and the queries of the database are left out: a request is its fields, and what
-- the database answers is an argument.
pub mod State
pub mod Steps
pub mod Sessions
pub mod Refusals
use rust_poker.Base.{
  ℕ, List, [], ◌∷◌, Option, none, some, Bool, true, false, not, ◌&&◌, String, if◌then◌else◌, ◌==◌,
  leb, is_empty, is_some,
}
use rust_poker.Base.Text.{Text, trim, split_whitespace}
use rust_poker.Game.{Game}
use rust_poker.Player.{Player, Addr}
use rust_poker.Table.{
  Table, Players, Result, keep_playing, player_send, persist_player, get_num_players, is_running,
}
use rust_poker.Table.Expiry.{expire_timed_out_turn, remove_unconfirmed_players}
use rust_poker.Table.Rounds.{start_game}
use rust_poker.Table.Seats.{add_player, remove_player}
use rust_poker.Table.View.{turn_id}
use rust_poker.Server.Commands.{
  Answer, rejected, command_required, not_your_turn, answer, called, returned, is_word, run_turn,
}

-- `Some(player_id) == turn_id`.
abbrev pub is_id : ℕ → Option ℕ → Bool
is_id id none = false
is_id id (some turn) = turn == id

-- The player that the database has, with the new name, or a new one.
abbrev pub joining : Option Player → ℕ → String → Option ℕ → Player
joining (some p) player_id name wallet = record p { name = name }
joining none player_id name (some wallet) = record {
  id = player_id;
  name = name;
  wallet = wallet;
  hand = record { cards = [] };
  bet = 0;
  folded = false;
}
joining none player_id name none = record {
  id = player_id;
  name = name;
  wallet = 1000;
  hand = record { cards = [] };
  bet = 0;
  folded = false;
}

module _ {G : Game} where
  -- `run_action` after the words of the command have been found.
  unfoldable pub run_words : ℕ → ℕ → ℕ → List Text → Table G → Option (Table G × Answer)
  unfolding run_turn
  run_words fuel now id parts t =
      if is_word "LEAVE" parts
      then returned (remove_player now id t)
      else if is_word "UPDATE" parts
      then called (t, player_send id t)
      else if is_word "KEEP_PLAYING" parts
      then called (keep_playing id t)
      else if is_id id (turn_id t)
      then run_turn fuel now id parts t
      else some (t, rejected not_your_turn)

  unfoldable pub run_action : ℕ → ℕ → ℕ → Text → Table G → Option (Table G × Answer)
  unfolding run_words
  run_action fuel now player_id command t =
      if is_empty (trim command)
      then some (t, rejected command_required)
      else run_words fuel now player_id (split_whitespace (trim command)) t

  -- `join_table`: the database is written before the table is asked.
  unfoldable pub join_table :
      (ℕ → Addr → Players → Players)
      → Option Player
      → ℕ
      → String
      → Option ℕ
      → Table G
      → Option (Table G × Answer)
  unfolding add_player persist_player
  join_table insert fetched player_id name wallet t =
      let p = joining fetched player_id name wallet in
      returned (add_player insert p (persist_player p t))

  -- The thread of `new_web_table`, one round in three parts, between which it sleeps or gives the
  -- lock away. First a turn that has timed out, and whether a game could start.
  unfoldable pub watch : ℕ → ℕ → Table G → Option (Table G × Bool)
  watch fuel now t = elim (expire_timed_out_turn fuel now t) [
    | none ↦ none
    | some (t', _) ↦ some (t', leb 2 (get_num_players t') && not (is_running t'))
  ]

  -- After a showdown has been on show.
  unfoldable pub clear_showdown : ℕ → Table G → Option (Table G)
  clear_showdown now t = if is_some t.showdown then remove_unconfirmed_players now t else some t

  -- The test is made again before the start.
  unfoldable pub start_if_ready : ℕ → ℕ → (List ℕ → List ℕ) → Table G → Option (Table G)
  start_if_ready fuel now shuffle t =
      if leb 2 (get_num_players t) && not (is_running t)
      then start_game fuel now shuffle t
      else some t
