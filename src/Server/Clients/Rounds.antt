-- ===== src/Server/Clients/Rounds.antt =====
-- One round of the loop of `handle_game_client`, Server/src/clienthandler.rs.
use rust_poker.Base.{
  ℕ, List, [], ◌∷◌, Option, none, some, Bool, true, false, ◌&&◌, if◌then◌else◌, is_empty,
}
use rust_poker.Base.Text.{Text, codes, same_text, trim, split_whitespace}
use rust_poker.Game.{Game}
use rust_poker.Player.{Player, Addr}
use rust_poker.Table.{Table, Players}
use rust_poker.Table.Rounds.{game_actions}
use rust_poker.Table.View.{turn_id}
use rust_poker.Server.Commands.{is_word}
use rust_poker.Server.Web.{is_id}
use rust_poker.Server.Clients.{
  Input, closed, nothing, broken, received, said, Client, say, Outcome, continues, returns, is_turn,
  disconnect, lost, debug_command, handle_join, play,
}

-- `["JOIN", id, name, wallet]`.
unfoldable pub join_request : List Text → Option (Text × Text)
join_request (word ∷ id ∷ name ∷ wallet ∷ []) =
    if same_text word (codes "JOIN") then some (id, name) else none
join_request _ = none

abbrev pub is_failed : Option Bool → Bool
is_failed (some false) = true
is_failed _ = false

module _ {G : Game} where
  -- The commands of a client who has joined.
  unfoldable pub joined_command :
      ℕ → ℕ → Bool → Bool → ℕ → List Text → Client → Table G → Option (Outcome G)
  unfolding play disconnect say
  joined_command fuel now writable on_turn id parts c t =
      if is_word "LEAVE" parts
      then elim (disconnect fuel now id on_turn t) [
        | none ↦ none
        | some t' ↦ some (returns (say writable (said "REMOVED\n") c) t')
      ]
      else if is_word "UPDATE" parts
      then some (continues c t)
      else if is_id id (turn_id t)
      then play fuel now writable on_turn id parts c (game_actions id parts t)
      else some (continues (say writable (said "[ERROR] NOT YOUR TURN\n") c) t)

  -- A request that is no debug command.
  unfoldable pub command :
      (ℕ → Addr → Players → Players)
      → (ℕ → Option Player)
      → ℕ
      → ℕ
      → Bool
      → Bool
      → List Text
      → Client
      → Table G
      → Option (Outcome G)
  unfolding joined_command handle_join join_request say
  command insert fetch fuel now writable on_turn parts c t = elim (join_request parts) [
    | some (id, name) ↦ handle_join insert fetch writable id name c t
    | none ↦ elim c.player_id [
      | none ↦ some (continues (say writable (said "[ERROR] NOT JOINED\n") c) t)
      | some id ↦ joined_command fuel now writable on_turn id parts c t
    ]
  ]

  -- A request by its words. A debug command ends the thread, and the player stays at the table.
  unfoldable pub request :
      (ℕ → Addr → Players → Players)
      → (ℕ → Option Player)
      → (List ℕ → List ℕ)
      → ℕ
      → ℕ
      → Bool
      → Bool
      → List Text
      → Client
      → Table G
      → Option (Outcome G)
  unfolding command debug_command say
  request insert fetch shuffle fuel now writable on_turn parts c t =
      if is_empty parts
      then some (continues (say writable (said "INVALID COMMAND\n") c) t)
      else if is_word "PONG" parts
      then some (continues c t)
      else elim (debug_command fuel now shuffle writable parts c t) [
        | some (c', none) ↦ none
        | some (c', some t') ↦ some (returns c' t')
        | none ↦ command insert fetch fuel now writable on_turn parts c t
      ]

  -- One round. `pinged` is the answer of the ping, if one is due; only the player on turn is pinged.
  unfoldable pub round :
      (ℕ → Addr → Players → Players)
      → (ℕ → Option Player)
      → (List ℕ → List ℕ)
      → ℕ
      → ℕ
      → Bool
      → Option Bool
      → Input
      → Client
      → Table G
      → Option (Outcome G)
  unfolding is_turn lost request
  round insert fetch shuffle fuel now writable pinged input c t =
      let on_turn = is_turn c t in
      if on_turn && is_failed pinged then lost fuel now on_turn c t else elim input [
        | closed ↦ lost fuel now on_turn c t
        | broken ↦ lost fuel now on_turn c t
        | nothing ↦ some (continues c t)
        | received text ↦
            request insert fetch shuffle fuel now writable on_turn (split_whitespace (trim text)) c
              t
      ]
