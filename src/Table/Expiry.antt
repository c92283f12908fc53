-- ===== src/Table/Expiry.antt =====
-- `expire_timed_out_turn` and `remove_unconfirmed_players` of Server/src/lib.rs. `now` is the clock in
-- seconds.
use rust_poker.Base.{
  ℕ, ◌-◌, List, [], ◌∷◌, Option, none, some, not, ◌||◌, if◌then◌else◌, ltb, is_some, contains,
}
use rust_poker.Game.{Game}
use rust_poker.Table.{Table, Players, ok, err, turn_timeout, player_at}
use rust_poker.Table.Seats.{remove_player}
use rust_poker.Table.Rounds.{advance_turn}

-- The ids that have not asked to keep playing.
unfoldable pub unconfirmed : List ℕ → Players → List ℕ
unconfirmed confirmed [] = []
unconfirmed confirmed ((id, _) ∷ m) =
    if contains confirmed id then unconfirmed confirmed m else id ∷ unconfirmed confirmed m

module _ {G : Game} where
  -- After a player who timed out has been removed.
  unfoldable pub go_on : ℕ → ℕ → Table G → Option (Table G)
  unfolding advance_turn
  go_on fuel now t = if is_some t.turn then advance_turn fuel now t else some t

  unfoldable pub expire_timed_out_turn : ℕ → ℕ → Table G → Option (Table G × Option ℕ)
  unfolding go_on
  expire_timed_out_turn fuel now t =
      if is_some t.showdown || not (is_some t.turn)
      then some (t, none)
      else elim t.turn_started_at [
        | none ↦ some (t, none)
        | some started ↦ elim t.turn [
          | none ↦ some (t, none)
          | some a ↦
              let id = (player_at t a).id in
              if ltb (now - started) turn_timeout
              then some (t, none)
              else elim (remove_player now id t) [
                | none ↦ none
                | some (t', err _) ↦ some (t', none)
                | some (t', ok _) ↦ elim (go_on fuel now t') [
                  | none ↦ none
                  | some t'' ↦ some (t'', some id)
                ]
              ]
        ]
      ]

  unfoldable pub remove_all : ℕ → List ℕ → Table G → Option (Table G)
  remove_all now [] t = some t
  remove_all now (id ∷ ids) t = elim (remove_player now id t) [
    | none ↦ none
    | some (t', _) ↦ remove_all now ids t'
  ]

  unfoldable pub remove_unconfirmed_players : ℕ → Table G → Option (Table G)
  unfolding unconfirmed remove_all
  remove_unconfirmed_players now t =
      if is_some t.showdown
      then remove_all now (unconfirmed t.next_game_players t.players) t
      else some t
