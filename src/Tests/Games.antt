-- ===== src/Tests/Games.antt =====
-- Examples for the games' dealing.
use rust_poker.Base.{
  ℕ, ◌+◌, ◌≤◌, ◌≡◌, ◌≢◌, refl, List, [], ◌∷◌, none, some, Ordering, true, false, occurs, length,
  All, arith,
}
use rust_poker.Base.Max.{Among}
use rust_poker.Deck.{Deck, deal}
use rust_poker.Deck.Weight.{weigh}
use rust_poker.Game.{deal_loop, best_hand, panics}
use rust_poker.Game.Cards.{held}
use rust_poker.Game.Laws.{deal_each, deal_loop-Ring, best_hand_lem}
use rust_poker.Game.FiveCardDraw
use rust_poker.Game.FiveCardDraw.{replace_cards}
use rust_poker.Game.FiveCardDraw.Laws.{replace_cards_keeps_cards, replace_cards_refusal}
use rust_poker.Game.TexasHoldem
use rust_poker.Game.TexasHoldem.{community_len}
use rust_poker.Game.TexasHoldem.Laws.{texas_holdem-keeps_cards}
use rust_poker.Game.SevenCardStud
use rust_poker.Game.SevenCardStud.Laws.{seven_card_stud-keeps_cards}
use rust_poker.Hand.{Hand}
use rust_poker.Hand.Evaluate.{evaluate}
use rust_poker.Hand.Rank.{cmp}
use rust_poker.Player.{PlayerNode}
use rust_poker.Store.{Store}
use rust_poker.Store.Links.{Ring}
use rust_poker.Tests.{some_player, ring_node, ring_store}

abbrev store : Store
store = ring_store none

store-Ring : Ring store 0 (1 ∷ 2 ∷ [])
store-Ring = record {
  linked = (refl, (refl, refl));
  others = (λ e. ground arith, (λ e. ground arith, tt));
  two = λ e. ground arith;
}

abbrev deck : Deck
deck = record { cards = 1 ∷ 2 ∷ 3 ∷ 4 ∷ 5 ∷ 6 ∷ 7 ∷ 8 ∷ 9 ∷ 10 ∷ [] }

abbrev one : ℕ → ℕ
one c = 1

abbrev draw : FiveCardDraw.State
draw = record { round = 0; deck = deck }

deal_loop-Ring_example :
    deal_loop FiveCardDraw.deal_to_player 4 0 0 true (draw, store)
    ≡ some (deal_each FiveCardDraw.deal_to_player (0 ∷ 1 ∷ 2 ∷ []) (draw, store))
deal_loop-Ring_example =
    deal_loop-Ring FiveCardDraw.deal_to_player store 0 (1 ∷ 2 ∷ []) 4 draw store-Ring (omega arith)

abbrev rivals : List (ℕ × Hand)
rivals = (1, record { cards = 13 ∷ 29 ∷ [] }) ∷ (2, record { cards = 12 ∷ 28 ∷ [] }) ∷ []

best_hand_lem_example :
    (m : ℕ × Hand) × (best_hand (λ h. h) rivals ≡ some m)
    × Among m rivals
    × All (λ p. cmp (evaluate p.1) (evaluate m.1) ≢ some Ordering.gt) rivals
best_hand_lem_example = best_hand_lem (λ h. h) rivals (λ e. ground arith)

abbrev hold : TexasHoldem.State
hold = record { round = 0; deck = deck; community_cards = record { cards = [] } }

texas_holdem-keeps_cards_example :
    (g' : TexasHoldem.State) × (s' : Store) × (TexasHoldem.handle_round_action 4
        (some 0)
        (hold, store)
      ≡ some ((g', s'), false))
    × (held one s' (0 ∷ 1 ∷ 2 ∷ []) + weigh one g'.deck.cards
        ≡ held one store (0 ∷ 1 ∷ 2 ∷ []) + weigh one deck.cards)
texas_holdem-keeps_cards_example =
    texas_holdem-keeps_cards one store 0 (1 ∷ 2 ∷ []) 4 hold refl store-Ring
      ((λ e. ground arith, (λ e. ground arith, tt)), ((λ e. ground arith, tt), (tt, tt)))
      (omega arith)

abbrev stud : SevenCardStud.State
stud = record { round = 0; deck = deck }

seven_card_stud-keeps_cards_example :
    (g' : SevenCardStud.State) × (s' : Store) × (SevenCardStud.handle_round_action 4
        (some 0)
        (stud, store)
      ≡ some ((g', s'), false))
    × (held one s' (0 ∷ 1 ∷ 2 ∷ []) + weigh one g'.deck.cards
        ≡ held one store (0 ∷ 1 ∷ 2 ∷ []) + weigh one deck.cards)
seven_card_stud-keeps_cards_example =
    seven_card_stud-keeps_cards one store 0 (1 ∷ 2 ∷ []) 4 stud (λ c. refl) (omega arith) store-Ring
      ((λ e. ground arith, (λ e. ground arith, tt)), ((λ e. ground arith, tt), (tt, tt)))
      (omega arith)

-- A player with three cards who discards the middle one.
abbrev drawer : PlayerNode
drawer = record (ring_node none 0) { player = some_player 1 (20 ∷ 21 ∷ 22 ∷ []) }

abbrev drawn : PlayerNode
drawn = record (drawer) { player = some_player 1 (20 ∷ 22 ∷ 10 ∷ []) }

abbrev after : FiveCardDraw.State
after = record { round = 0; deck = record { cards = 1 ∷ 2 ∷ 3 ∷ 4 ∷ 5 ∷ 6 ∷ 7 ∷ 8 ∷ 9 ∷ [] } }

replace_cards_keeps_cards_example :
    (1 ≤ 4)
    × ((a : ℕ)
        → occurs a (20 ∷ 22 ∷ 10 ∷ []) + occurs a (21 ∷ []) + occurs a after.deck.cards
          ≡ occurs a (20 ∷ 21 ∷ 22 ∷ []) + occurs a deck.cards)
    × (1 ≤ 10 → length drawn.player.hand.cards ≡ length drawer.player.hand.cards)
unfolding replace_cards deal
replace_cards_keeps_cards_example = replace_cards_keeps_cards drawer drawn (21 ∷ []) draw after refl

replace_cards_refusal_example :
    ((replace_cards drawer (5 ∷ []) draw).0 ≡ (drawer, draw))
    × ((replace_cards drawer (5 ∷ []) draw).1 ≡ panics → length drawer.player.hand.cards ≡ 4)
unfolding replace_cards deal
replace_cards_refusal_example = replace_cards_refusal drawer (5 ∷ []) draw (λ e. ground arith)
