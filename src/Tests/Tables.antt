-- ===== src/Tests/Tables.antt =====
-- Examples for the tables.
use rust_poker.Base.{
  ◌≢◌, ℕ, ◌+◌, ◌<◌, ◌≡◌, refl, [], ◌∷◌, Option, none, some, true, false, find, arith,
}
use rust_poker.Game.FiveCardDraw.{five_card_draw}
use rust_poker.Player.{Addr, Stream}
use rust_poker.Store.{Store, set_node}
use rust_poker.Store.Links.{Ring}
use rust_poker.Table.{
  Table, Players, err, mutex_poisoned, write_failed, addresses, lookup, player_at, player_send,
  removed, player_send_holding, persist_player, mark_turn_started,
}
use rust_poker.Table.Bets.{raise}
use rust_poker.Table.Bets.Levels.{raise_lowers}
use rust_poker.Table.Finish.{fold, unlink}
use rust_poker.Table.Finish.Chips.{games-FindsWinner}
use rust_poker.Table.Money.{Distinct, funds}
use rust_poker.Table.Pots.{pay_showdown_pots}
use rust_poker.Table.Pots.Laws.{pay_showdown_pots-funds}
use rust_poker.Table.Rounds.{next_betting_node, all_matched, antes}
use rust_poker.Table.Rounds.Turns.{
  can_bet, has_matched, every, next_betting_node-find, all_matched-every,
}
use rust_poker.Table.Seats.{
  add_player_with_optional_stream, rebuild_full_ring, remove_player, leave,
}
use rust_poker.Table.Seats.Laws.{Linked, PointsAmong, rebuild_full_ring-Linked, add_player_again}
use rust_poker.Table.Seats.Leaving.{Between, Unlinked, fold-Unlinked, remove_player_unwritable}
use rust_poker.Table.Seats.Gone.{remove_player-Gone}
use rust_poker.Hand
use rust_poker.Hand.{Hand}
use rust_poker.Table.Rounds.Antes.{check_each, antes-each}
use rust_poker.Tests.{some_player, ring_store, three_seats}

abbrev seats : Table five_card_draw
seats = three_seats none

abbrev dead : Stream
dead = record { writable = false }

seats-Distinct : Distinct (addresses seats.players)
seats-Distinct = ((λ e. ground arith, (λ e. ground arith, tt)), ((λ e. ground arith, tt), (tt, tt)))

pay_showdown_pots-funds_example :
    funds (pay_showdown_pots seats).store seats.players
    ≡ funds seats.store seats.players + seats.pot
pay_showdown_pots-funds_example =
    pay_showdown_pots-funds seats games-FindsWinner.0 seats-Distinct (λ e. ground arith)
      (omega arith) (omega arith)

-- The table asks for 80.
abbrev raised : Table five_card_draw
raised = record (seats) { bet = 80 }

raise_lowers_example :
    ((raise 2 10 raised).0.bet ≡ (player_at (raise 2 10 raised).0 1).bet)
    × ((raise 2 10 raised).0.bet < 80)
raise_lowers_example =
    raise_lowers 2 1 raised refl 10 (λ e. ground arith) (omega arith) (omega arith) (omega arith)

abbrev store : Store
store = ring_store none

seats-Ring : Ring store 0 (1 ∷ 2 ∷ [])
seats-Ring = record {
  linked = (refl, (refl, refl));
  others = (λ e. ground arith, (λ e. ground arith, tt));
  two = λ e. ground arith;
}

next_betting_node-find_example :
    next_betting_node 2 0 store ≡ some (find (λ x. can_bet (store.node x)) (1 ∷ 2 ∷ []))
next_betting_node-find_example =
    next_betting_node-find store 0 (1 ∷ 2 ∷ []) 2 seats-Ring (omega arith)

all_matched-every_example :
    all_matched 3 80 1 0 true store ≡ some (every (λ x. has_matched 80 (store.node x)) (1 ∷ 2 ∷ []))
all_matched-every_example =
    all_matched-every store 0 (1 ∷ 2 ∷ []) 3 80 (refl, (refl, refl)) (λ e. ground arith)
      seats-Distinct (λ e. ground arith, (λ e. ground arith, tt)) (omega arith)

rebuild_full_ring-Linked_example :
    Linked (rebuild_full_ring seats).store 0 2 0 (1 ∷ 2 ∷ [])
    × PointsAmong (0 ∷ 1 ∷ 2 ∷ []) (rebuild_full_ring seats).head
    × PointsAmong (0 ∷ 1 ∷ 2 ∷ []) (rebuild_full_ring seats).blind
rebuild_full_ring-Linked_example = rebuild_full_ring-Linked seats 0 (1 ∷ 2 ∷ []) refl seats-Distinct

abbrev push : ℕ → Addr → Players → Players
push id a m = (id, a) ∷ m

add_player_again_example :
    (t' : Table five_card_draw) × (add_player_with_optional_stream push
        (some_player 2 [])
        none
        seats
      ≡ some (t', err mutex_poisoned))
    × (t'.players ≡ seats.players)
    × ((player_at t' 1).name ≡ "Ada")
    × ((b : Addr) → (player_at t' b).wallet ≡ (player_at seats b).wallet)
add_player_again_example = add_player_again push (some_player 2 []) none seats 1 refl

seats-Between : (stream : Option Stream) → Between (three_seats stream) 2 1 0 2
seats-Between stream = record {
  found = refl;
  next = refl;
  prev = refl;
  not_b = λ e. ground arith;
  not_c = λ e. ground arith;
  apart = λ e. ground arith;
}

fold-Unlinked_example :
    (u : Table five_card_draw) × (fold 7 2 seats ≡ some (u, player_send 2 u))
    × Unlinked store u.store 1 0 2
    × (u.turn ≡ some 0)
    × (u.players ≡ seats.players)
    × (u.pot ≡ 150)
    × ((u.store.node 1).stream ≡ none)
fold-Unlinked_example = fold-Unlinked 7 2 seats 1 0 2 (seats-Between none)

remove_player_unwritable_example :
    (u : Table five_card_draw) × (remove_player 7 2 (three_seats (some dead))
      ≡ some (u, err write_failed))
    × (lookup 2 u.players ≡ some 1)
    × ((player_at u 1).folded ≡ true)
remove_player_unwritable_example =
    remove_player_unwritable 7 2 (three_seats (some dead)) 1 0 2 (seats-Between (some dead)) refl

abbrev left : Table five_card_draw
unfolding remove_player fold unlink leave
left = elim (remove_player 7 2 seats) [ none ↦ seats | some (u, _) ↦ u ]

remove_player-Gone_example :
    (lookup 2 left.players ≡ none)
    × ((k : ℕ) → k ≢ 2 → lookup k left.players ≡ lookup k seats.players)
unfolding remove_player fold unlink leave player_send player_send_holding persist_player
    mark_turn_started set_node
remove_player-Gone_example =
    remove_player-Gone 7 2 seats left removed (refl, (refl, (refl, tt))) refl

-- Five other cards that lie face down.
abbrev hidden : Hand
hidden = record { cards = 1 ∷ 2 ∷ 3 ∷ 4 ∷ 5 ∷ [] }

antes-each_example : antes 4 0 0 true raised ≡ some (check_each (0 ∷ 1 ∷ 2 ∷ []) raised)
antes-each_example =
    antes-each raised 0 1 (2 ∷ []) 4 (refl, (refl, refl))
      (λ e. ground arith, (λ e. ground arith, tt)) (omega arith)
