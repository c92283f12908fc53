-- ===== src/Tests/Requests.antt =====
-- Examples for refused requests, for a client's round, and for the registry of games.
use rust_poker.Base.{ℕ, ◌≡◌, refl, [], ◌∷◌, Option, none, some, OnSome, true, false, arith}
use rust_poker.Base.Text.{codes, trim, split_whitespace}
use rust_poker.Game.FiveCardDraw.{five_card_draw}
use rust_poker.Player.{Player, Addr}
use rust_poker.Table.{Table, Players}
use rust_poker.Server.Commands.{rejected, not_your_turn}
use rust_poker.Server.Web.{run_action}
use rust_poker.Server.Web.Refusals.{run_action-not_your_turn}
use rust_poker.Server.Clients.{Client, received, debug_command, is_turn}
use rust_poker.Server.Clients.Rounds.{request, round, join_request}
use rust_poker.Server.Clients.Refusals.{Leaves, request-Leaves}
use rust_poker.Server.Clients.Served.{IsRich, round-Ends}
use rust_poker.Server.Clients.Steps.{Ends}
use rust_poker.Server.Manager.{ServerManager, register_game, shutdown_game}
use rust_poker.Server.Manager.Ports.{register_game-after_shutdown}
use rust_poker.Tests.{three_seats}

abbrev seats : Table five_card_draw
seats = three_seats none

run_action-not_your_turn_example :
    run_action 9 5 1 (codes " RAISE 30") seats ≡ some (seats, rejected not_your_turn)
unfolding trim split_whitespace
run_action-not_your_turn_example =
    run_action-not_your_turn 9 5 1 (codes " RAISE 30") seats (λ e. ground arith) refl

abbrev push : ℕ → Addr → Players → Players
push id a m = (id, a) ∷ m

abbrev empty_db : ℕ → Option Player
empty_db id = none

abbrev client : Client
client = record { player_id = some 1; sent = [] }

request-Leaves_example : Leaves seats (
    request push empty_db
      (λ l. l)
      9
      5
      true
      (is_turn client seats)
      (codes "RAISE" ∷ codes "30" ∷ [])
      client
      seats)
unfolding is_turn join_request debug_command
request-Leaves_example =
    request-Leaves push empty_db (λ l. l) 9 5 true (codes "RAISE" ∷ codes "30" ∷ []) client seats
      refl refl refl refl

empty_db-IsRich : IsRich empty_db 1000
empty_db-IsRich id = tt

round-Ends_example :
    OnSome (Ends push 1000 seats) (
      round push empty_db (λ l. l) 9 5 true none (received (codes "JOIN 7 Ada 500\n")) client seats)
unfolding split_whitespace trim
round-Ends_example =
    round-Ends push empty_db 1000 (λ l. l) 9 5 true none (received (codes "JOIN 7 Ada 500\n"))
      client seats (omega arith) empty_db-IsRich (λ e. ground arith)

-- Two games on the ports 10000 and 10001.
abbrev two_games : ServerManager
two_games = record {
  tables =
      (codes "TexasHoldem", record { port = 10000; multicast_addr = codes "224.0.0.1" })
      ∷ (codes "FiveCardDraw", record { port = 10001; multicast_addr = codes "224.0.0.2" })
      ∷ [];
  bound = 10001 ∷ 10000 ∷ [];
  shut_down = false;
}

register_game-after_shutdown_example :
    register_game (codes "SevenCardStud") (shutdown_game (codes "TexasHoldem") two_games) ≡ none
register_game-after_shutdown_example =
    register_game-after_shutdown (codes "TexasHoldem") (codes "SevenCardStud")
      (record { port = 10000; multicast_addr = codes "224.0.0.1" }) two_games refl refl
      (λ e. ground arith)
