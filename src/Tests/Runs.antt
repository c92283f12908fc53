-- ===== src/Tests/Runs.antt =====
-- Examples for sequences of operations and of requests.
use mathlib.Core.List.Permᴰ
use rust_poker.Base.{ℕ, ◌≡◌, refl, [], ◌∷◌, Option, none, some, true, arith}
use rust_poker.Base.Text.{codes, trim, split_whitespace}
use rust_poker.Game.FiveCardDraw.{five_card_draw}
use rust_poker.Player.{Player, Addr}
use rust_poker.Table
use rust_poker.Table.{Table, Players, player_at, is_running}
use rust_poker.Table.Bets.{raise, check}
use rust_poker.Table.Bets.Laws.{chips}
use rust_poker.Table.Rounds.Starts.{start_game-returns}
use rust_poker.Table.Rounds.Opens.{games-DealsAround}
use rust_poker.Table.Rounds.{advance_turn, start_game}
use rust_poker.Table.Rounds.Returns.{Active, turn_result, advance_turn-returns, games-DealsFirst}
use rust_poker.Table.Safe.{Safe}
use rust_poker.Table.Seats.{add_player_with_optional_stream}
use rust_poker.Server.Commands.{Answer, answer, rejected, not_your_turn}
use rust_poker.Server.Web.{run_action, join_table}
use rust_poker.Server.Web.Sessions.{Session, opens, asks}
use rust_poker.Server.Web.Steps.{commands, enters}
use rust_poker.Tests.{some_player, three_seats}

abbrev seats : Table five_card_draw
seats = three_seats none

abbrev push : ℕ → Addr → Players → Players
push id a m = (id, a) ∷ m

seats-Safe : Safe (chips seats) seats
seats-Safe = record {
  nodes = ((λ e. ground arith, (λ e. ground arith, tt)), ((λ e. ground arith, tt), (tt, tt)));
  behind = (omega arith, (omega arith, (omega arith, tt)));
  stake = omega arith;
  whole = refl;
  fits = omega arith;
  small = omega arith;
}

-- A raise by the second player, and a call by the first.
abbrev called : Table five_card_draw
called = (check 1 (raise 2 30 seats).0).0

abbrev newcomer : Player
newcomer = record (some_player 7 []) { bet = 0 }

-- A table that one player has joined.
abbrev joined : Option (Table five_card_draw × Table.Result) → Table five_card_draw
joined none = Table.new
joined (some (t, _)) = t

abbrev first_table : Table five_card_draw
first_table = joined (add_player_with_optional_stream push newcomer none Table.new)

abbrev entered : Option (Table five_card_draw × Answer) → Table five_card_draw
entered none = Table.new
entered (some (t, _)) = t

abbrev web_table : Table five_card_draw
web_table = entered (join_table push none 7 "Ada" none Table.new)

first_session : Session push 1000 web_table
unfolding join_table Table.new run_action trim split_whitespace
first_session =
    asks {n = 1000} {brought = 0}
      (asks {n = 0} {brought = 1000} (opens refl)
        (enters none 7 "Ada" none (answer (Table.player_send 7 web_table)) refl refl refl) refl)
      (commands 9 5 7 (codes " CHECK ") (rejected not_your_turn) refl) refl

seats-Active : Active 3 seats 1 (2 ∷ 0 ∷ [])
seats-Active = record {
  on_turn = refl;
  ring = record {
    linked = (refl, (refl, refl));
    others = (λ e. ground arith, (λ e. ground arith, tt));
    two = λ e. ground arith;
  };
  nodes = ((λ e. ground arith, (λ e. ground arith, tt)), ((λ e. ground arith, tt), (tt, tt)));
  ids = (λ e. ground arith, (λ e. ground arith, tt));
  enough = omega arith;
}

advance_turn-returns_example :
    (u : Table five_card_draw) × (advance_turn 3 9 seats ≡ some u)
    × (turn_result 3 9 (2 ∷ 0 ∷ []) seats ≡ some u)
unfolding five_card_draw
advance_turn-returns_example =
    advance_turn-returns games-DealsFirst.1 3 9 seats 1 (2 ∷ 0 ∷ []) seats-Active (omega arith)

start_game-returns_example :
    (u : Table five_card_draw) × (start_game 5 9 (λ cards. cards) seats ≡ some u)
    × (is_running u ≡ true)
start_game-returns_example =
    start_game-returns games-DealsAround.1 5 9 (λ cards. cards) seats 0 1 (2 ∷ []) refl
      seats-Safe.nodes (omega arith)
