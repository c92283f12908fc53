-- ===== src/Game/FiveCardDraw/Deals.antt =====
-- The deal of Poker/src/games/fivecarddraw.rs.
use rust_poker.Base.{ℕ, ==_iff, ◌+◌, ◌<◌, ◌≡◌, List, ◌∷◌, some, false, arith, length}
use rust_poker.Deck
use rust_poker.Deck.Weight.{weigh, weigh-append, weigh-deal}
use rust_poker.Player.{Addr}
use rust_poker.Store.{Store}
use rust_poker.Store.Links.{Ring}
use rust_poker.Game.Cards.{KeepsCards, Differ, held, deal_loop-keeps}
use rust_poker.Game.FiveCardDraw.{State, deal_to_player, handle_round_action}

deal_to_player-keeps : (w : ℕ → ℕ) → KeepsCards deal_to_player (λ g. g.deck) w
unfolding deal_to_player
deal_to_player-keeps w p g =
    ground (arith, weigh-deal w 5 g.deck, weigh-append w p.hand.cards (Deck.deal 5 g.deck).1)

-- The first round of five-card draw ends on a ring of two or more and keeps all cards: for every
-- weight of cards, the hands and the deck together weigh what they weighed before.
five_card_draw-keeps_cards :
    (w : ℕ → ℕ) (s : Store) (head : Addr) (rest : List Addr) (fuel : ℕ) (g : State)
    → g.round ≡ 0
    → Ring s head rest
    → Differ (head ∷ rest)
    → length (head ∷ rest) < fuel
    → (g' : State) × (s' : Store) × (handle_round_action fuel (some head) (g, s)
        ≡ some ((g', s'), false))
      × (held w s' (head ∷ rest) + weigh w g'.deck.cards
          ≡ held w s (head ∷ rest) + weigh w g.deck.cards)
unfolding handle_round_action
five_card_draw-keeps_cards w s head rest fuel g zero_round r d h =
    let ((g', s'), e, keeps) =
      deal_loop-keeps deal_to_player (λ g. g.deck) w (deal_to_player-keeps w) s head rest fuel g r d
        h in
    (g', s', rw (e, (==_iff g.round 0).1 zero_round), keeps)
