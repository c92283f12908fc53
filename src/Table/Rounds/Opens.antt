-- ===== src/Table/Rounds/Opens.antt =====
-- The first round of the three games of Poker/src/games, as `start_game` of Server/src/lib.rs calls it.
use rust_poker.Base.{ℕ, ◌<◌, ◌≡◌, refl, List, ◌∷◌, some, true, false, ◌==◌, ltb, length, arith}
use rust_poker.Game.{Game}
use rust_poker.Game.Laws.{deal_loop-Ring, deal_each}
use rust_poker.Game.FiveCardDraw
use rust_poker.Game.FiveCardDraw.{five_card_draw}
use rust_poker.Game.TexasHoldem
use rust_poker.Game.TexasHoldem.{texas_holdem}
use rust_poker.Game.SevenCardStud
use rust_poker.Game.SevenCardStud.{seven_card_stud}
use rust_poker.Player.{Addr}
use rust_poker.Store.{Store}
use rust_poker.Store.Links.{Ring}

-- A game that starts with round 0, in which it deals around the ring and goes on.
pub record DealsAround (G : Game) : Type 0 where
  pub fresh : (shuffle : List ℕ → List ℕ) (g : G.State) → G.get_round (G.start_game shuffle g) ≡ 0
  pub opens :
      (fuel : ℕ) (head : Addr) (rest : List Addr) (g : G.State) (s : Store)
      → Ring s head rest
      → length (head ∷ rest) < fuel
      → G.get_round g ≡ 0
      → (r : G.State × Store) × (G.handle_round_action fuel (some head) (g, s) ≡ some (r, false))

holdem_opens :
    (fuel : ℕ) (head : Addr) (rest : List Addr) (g : TexasHoldem.State) (s : Store)
    → Ring s head rest
    → length (head ∷ rest) < fuel
    → g.round ≡ 0
    → (r : TexasHoldem.State × Store) × (TexasHoldem.handle_round_action fuel (some head) (g, s)
        ≡ some (r, false))
unfolding TexasHoldem.handle_round_action
holdem_opens fuel head rest g s ring h z =
    let first : (g.round == 0) ≡ true = ground (arith, z) in
    let e = deal_loop-Ring TexasHoldem.deal_to_player s head rest fuel g ring h in
    (deal_each TexasHoldem.deal_to_player (head ∷ rest) (g, s), rw (first, e) refl)

draw_opens :
    (fuel : ℕ) (head : Addr) (rest : List Addr) (g : FiveCardDraw.State) (s : Store)
    → Ring s head rest
    → length (head ∷ rest) < fuel
    → g.round ≡ 0
    → (r : FiveCardDraw.State × Store) × (FiveCardDraw.handle_round_action fuel (some head) (g, s)
        ≡ some (r, false))
unfolding FiveCardDraw.handle_round_action
draw_opens fuel head rest g s ring h z =
    let first : (g.round == 0) ≡ true = ground (arith, z) in
    let e = deal_loop-Ring FiveCardDraw.deal_to_player s head rest fuel g ring h in
    (deal_each FiveCardDraw.deal_to_player (head ∷ rest) (g, s), rw (first, e) refl)

stud_opens :
    (fuel : ℕ) (head : Addr) (rest : List Addr) (g : SevenCardStud.State) (s : Store)
    → Ring s head rest
    → length (head ∷ rest) < fuel
    → g.round ≡ 0
    → (r : SevenCardStud.State × Store) × (SevenCardStud.handle_round_action fuel (some head) (g, s)
        ≡ some (r, false))
unfolding SevenCardStud.handle_round_action
stud_opens fuel head rest g s ring h z =
    let first : ltb 4 g.round ≡ false = ground (arith, z) in
    let e = deal_loop-Ring SevenCardStud.deal_to_player s head rest fuel g ring h in
    (deal_each SevenCardStud.deal_to_player (head ∷ rest) (g, s), rw (first, e) refl)

-- All three games deal around the ring when they start.
pub games-DealsAround :
    DealsAround texas_holdem × DealsAround five_card_draw × DealsAround seven_card_stud
unfolding texas_holdem five_card_draw seven_card_stud TexasHoldem.start_game FiveCardDraw.start_game
    SevenCardStud.start_game
games-DealsAround = (
  record { fresh = λ shuffle g. refl; opens = holdem_opens },
  record { fresh = λ shuffle g. refl; opens = draw_opens },
  record { fresh = λ shuffle g. refl; opens = stud_opens },
)
