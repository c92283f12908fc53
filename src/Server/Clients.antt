-- ===== src/Server/Clients.antt =====
-- One round of the loop of `handle_game_client` and its helpers, Server/src/clienthandler.rs. What
-- the socket gives and whether it can be written to in this round are arguments. `none` stands for a
-- round that does not return.
pub mod Rounds
pub mod Steps
pub mod Served
pub mod Refusals
use rust_poker.Base.{
  ℕ, ◌-◌, ◌^◌, List, [], ◌∷◌, Option, none, some, Bool, true, false, not, ◌&&◌, String,
  if◌then◌else◌, ltb, is_empty, is_some,
}
use rust_poker.Base.Text
use rust_poker.Base.Text.{Text, codes, same_text, trim, split_whitespace}
use rust_poker.Base.Text.Chars.{to_string}
use rust_poker.Game.{Game}
use rust_poker.Player.{Player, Addr, Stream}
use rust_poker.Table.{
  Table, Players, Result, Error, ok, err, get_num_players, persist_player, player_send,
}
use rust_poker.Table.Finish.{end_game}
use rust_poker.Table.Rounds.{game_actions, advance_turn, start_game}
use rust_poker.Table.Seats.{add_player_with_optional_stream, remove_player}
use rust_poker.Table.View.{turn_id}
use rust_poker.Server.Commands.{
  Answer, accepted, rejected, Refusal, of_table, not_your_turn, is_bet, is_word, bet_of, run_bet,
  u64_max,
}
use rust_poker.Server.Web.{is_id, joining}

-- What `read` gives: the end of the stream, nothing in a second, an error, or a request.
pub data Input : Type 0 where
  closed nothing broken : Input
  received : Text → Input

-- `ping_client`: whether the ping can be written, and what is read in five seconds, if anything.
unfoldable pub ping_client : Bool → Option Text → Bool
ping_client writable none = false
ping_client writable (some response) =
    writable && not (is_empty response) && same_text (trim response) (codes "PONG")

-- What is written to the socket: a fixed text, or what the table answered.
pub data Message : Type 0 where
  said : String → Message
  answered : Answer → Message

-- The id that a client has joined with, and what its thread has written, the last first; what the table
-- writes to a player's stream is not in it.
pub record Client : Type 0 where
  pub player_id : Option ℕ
  pub sent : List Message

-- A write whose outcome is not looked at.
unfoldable pub say : Bool → Message → Client → Client
say writable m c = if writable then record c { sent = m ∷ c.sent } else c

-- How a round ends: with the next one, or with the thread.
pub data Outcome (G : Game) : Type 0 where
  continues : Client → Table G → Outcome G
  returns : Client → Table G → Outcome G

-- `add_player_with_stream` takes a stream that can be written to as long as the client is there.
abbrev pub own_stream : Option Stream
own_stream = some (record { writable = true })

module _ {G : Game} where
  unfoldable pub is_turn : Client → Table G → Bool
  is_turn c t = elim c.player_id [ none ↦ false | some id ↦ is_id id (turn_id t) ]

  -- `handle_player_disconnect`; an error of `remove_player` is only logged.
  unfoldable pub disconnect : ℕ → ℕ → ℕ → Bool → Table G → Option (Table G)
  disconnect fuel now id on_turn t = elim (remove_player now id t) [
    | none ↦ none
    | some (t', _) ↦ elim (if on_turn then advance_turn fuel now t' else some t') [
      | none ↦ none
      | some t'' ↦ some (if ltb (get_num_players t'') 2 then end_game t'' else t'')
    ]
  ]

  -- The connection is lost: a player who has joined is taken from the table.
  unfoldable pub lost : ℕ → ℕ → Bool → Client → Table G → Option (Outcome G)
  unfolding disconnect
  lost fuel now on_turn c t = elim c.player_id [
    | none ↦ some (returns c t)
    | some id ↦ elim (disconnect fuel now id on_turn t) [
      | none ↦ none
      | some t' ↦ some (returns c t')
    ]
  ]

  -- `handle_debug_commands`: `none` if it is no debug command. What is only printed or broadcast is
  -- left out.
  unfoldable pub debug_command :
      ℕ
      → ℕ
      → (List ℕ → List ℕ)
      → Bool
      → List Text
      → Client
      → Table G
      → Option (Client × Option (Table G))
  unfolding say
  debug_command fuel now shuffle writable parts c t =
      if is_word "DEBUG" parts
      then some (c, some t)
      else if is_word "DEBUG_PING" parts
      then some (say writable (said "PONG\n") c, some t)
      else if is_word "DEBUG_UDP" parts
      then some (say writable (said "UDP SENT\n") c, some t)
      else if is_word "DEBUG_DECK" parts
      then some (c, some t)
      else if is_word "DEBUG_CARDS" parts
      then some (c, some t)
      else if is_word "DEBUG_START" parts
      then some (c, start_game fuel now shuffle t)
      else if is_word "DEBUG_SKIP" parts
      then some (c, advance_turn fuel now t)
      else if is_word "DEBUG_END" parts
      then some (c, some (end_game t))
      else none

  -- `handle_join`: the client's id is set as soon as it has been parsed.
  unfoldable pub handle_join :
      (ℕ → Addr → Players → Players)
      → (ℕ → Option Player)
      → Bool
      → Text
      → Text
      → Client
      → Table G
      → Option (Outcome G)
  unfolding say persist_player
  handle_join insert fetch writable id name c t = elim (Text.parse u64_max id) [
    | none ↦ some (returns (say writable (said "[ERROR] INVALID ID VALUE\n") c) t)
    | some k ↦
        let c' = record c { player_id = some k } in
        let p = joining (fetch k) k (to_string name) none in
        elim (add_player_with_optional_stream insert p own_stream (persist_player p t)) [
          | none ↦ none
          | some (t', ok _) ↦ some (continues (say writable (said "JOINED\n") c') t')
          | some (t', err e) ↦
              some (returns (say writable (answered (rejected (of_table e))) c') t')
        ]
  ]

  -- The result of a bet, written to the client: the turn goes on after an `Ok`.
  unfoldable pub report :
      ℕ → ℕ → Bool → Bool → ℕ → Client → Option (Table G × Answer) → Option (Outcome G)
  unfolding say disconnect
  report fuel now writable on_turn id c none = none
  report fuel now writable on_turn id c (some (t, a)) =
      if writable
      then elim a [
        | rejected e ↦ some (continues (say writable (answered (rejected e)) c) t)
        | accepted r ↦ elim (advance_turn fuel now t) [
          | none ↦ none
          | some t' ↦ some (continues (say writable (answered (accepted r)) c) t')
        ]
      ]
      else elim (disconnect fuel now id on_turn t) [ none ↦ none | some t' ↦ some (returns c t') ]

  -- The block around `game_actions`. It holds the table's lock: where the answer cannot be written,
  -- `handle_player_disconnect` waits for that lock, and the round does not return.
  unfoldable pub play :
      ℕ → ℕ → Bool → Bool → ℕ → List Text → Client → Option (Table G × Result) → Option (Outcome G)
  unfolding report say run_bet bet_of
  play fuel now writable on_turn id parts c none = none
  play fuel now writable on_turn id parts c (some (t, ok r)) =
      if writable
      then elim (advance_turn fuel now t) [
        | none ↦ none
        | some t' ↦ some (continues (say writable (answered (accepted r)) c) t')
      ]
      else none
  play fuel now writable on_turn id parts c (some (t, err e)) =
      if is_bet e
      then report fuel now writable on_turn id c (run_bet now id (bet_of parts) t)
      else if writable
      then some (continues (say writable (answered (rejected (of_table e))) c) t)
      else none
