-- ===== src/Game.antt =====
-- The `Game` trait of Poker/src/game.rs as a record of operations, and the loop and the choice of
-- the winner that its three implementations share.
pub mod Laws
pub mod Cards
pub mod FiveCardDraw
pub mod TexasHoldem
pub mod SevenCardStud
use rust_poker.Base.{
  ℕ, zero, suc, ◌+◌, ◌%◌, List, [], Option, none, some, Bool, true, false, not, ◌&&◌, ◌==◌,
  Ordering, String, if◌then◌else◌,
}
use rust_poker.Base.Text.{Text}
use rust_poker.Base.Max.{max_by}
use rust_poker.Deck.{Deck}
use rust_poker.Hand.{Hand}
use rust_poker.Hand.Evaluate.{evaluate}
use rust_poker.Hand.Rank.{HandRank, cmp}
use rust_poker.Player.{Player, PlayerNode, Addr}
use rust_poker.Store.{Store, set_player}

-- What a client's action comes to: done, refused with a text, or a panic.
pub data Action : Type 0 where
  done : Action
  refused : String → Action
  panics : Action

-- The JSON value of a game's `to_broadcast`, with the fields that the games have.
pub record GameView : Type 0 where
  pub round : ℕ
  pub community_cards : Option Hand

-- The methods of the trait. `handle_round_action` takes the fuel of its loop, and `start_game` the
-- shuffle of a new deck.
pub record Game : Type 1 where
  pub State : Type 0
  pub new : State
  pub is_ante : State → Bool
  pub get_round : State → ℕ
  pub advance_round : State → State
  pub get_deck : State → Deck
  pub client_action : PlayerNode → List Text → State → (PlayerNode × State) × Action
  pub handle_round_action : ℕ → Option Addr → State × Store → Option ((State × Store) × Bool)
  pub deal_to_player : Player → State → Player × State
  pub start_game : (List ℕ → List ℕ) → State → State
  pub determine_winner : State → List (ℕ × Hand) → Option ℕ
  pub to_broadcast : State → GameView
  pub showdown_hand : State → Hand → Hand

-- `self.round += 1` on a byte.
abbrev pub next_round : ℕ → ℕ
next_round round = (round + 1) % 256

-- The loop of `handle_round_action` that deals to the ring from `head`; `none` means that the fuel
-- ran out.
module _ {G : Type 0} (deal : Player → G → Player × G) where
  unfoldable pub deal_step : Addr → G × Store → G × Store
  deal_step a (g, s) = let (p, g') = deal (s.node a).player g in (g', set_player a p s)

  unfoldable pub deal_loop : ℕ → Addr → Addr → Bool → G × Store → Option (G × Store)
  deal_loop zero head a first gs = none
  deal_loop (suc fuel) head a first gs =
      let gs' = deal_step a gs in
      let next = (gs'.1.node a).next in
      elim next [
        | none ↦ some gs'
        | some b ↦
            let rest = deal_loop fuel head b false gs' in
            if (b == head) && not first then some gs' else rest
      ]

-- `cmp` on ranks; `none`, its panic on two kinds with the same rank value, stands as equal.
abbrev pub cmp_rank : HandRank → HandRank → Ordering
cmp_rank a b = elim (cmp a b) [ none ↦ Ordering.eq | some o ↦ o ]

-- `max_by` over the evaluated hands, as seen through `view`.
unfoldable pub best_hand : (Hand → Hand) → List (ℕ × Hand) → Option (ℕ × Hand)
best_hand view players =
    max_by (λ a b. cmp_rank (evaluate (view a.1)) (evaluate (view b.1))) players

abbrev pub winner_id : Option (ℕ × Hand) → Option ℕ
winner_id none = none
winner_id (some (id, _)) = some id
