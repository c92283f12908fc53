-- ===== src/Table/Safe/Games.antt =====
-- The three games of Poker/src/games/ move no chips.
use rust_poker.Base.{
  ℕ, zero, suc, ◌≡◌, refl, List, [], ◌∷◌, Option, none, some, Option-cases, OnSome, Bool, true,
  false, not, ◌&&◌, Bool-cases, ◌==◌, ltb, inl, inr, arith,
}
use rust_poker.Base.Text.{Text}
use rust_poker.Game.{deal_step, deal_loop}
use rust_poker.Game.FiveCardDraw
use rust_poker.Game.FiveCardDraw.{five_card_draw, replace_cards}
use rust_poker.Game.TexasHoldem
use rust_poker.Game.TexasHoldem.{texas_holdem}
use rust_poker.Game.SevenCardStud
use rust_poker.Game.SevenCardStud.{seven_card_stud}
use rust_poker.Player.{Player, PlayerNode, Addr}
use rust_poker.Store.{Store}
use rust_poker.Table.Safe.Rounds.{KeepsMoney}
use rust_poker.Table.Same.{SameMoney, SameMoney_refl, SameMoney_trans, set_player-SameMoney}

module _ {G : Type 0} (deal : Player → G → Player × G) where
  -- Dealing to a player leaves the wallet and the bet alone.
  abbrev DealsOnly : Type 0
  DealsOnly = (p : Player) (g : G) → ((deal p g).0.wallet ≡ p.wallet) × ((deal p g).0.bet ≡ p.bet)

  step-SameMoney : DealsOnly → (a : Addr) (gs : G × Store) → SameMoney gs.1 (deal_step deal a gs).1
  unfolding deal_step
  step-SameMoney d a (g, s) =
      let k = d (s.node a).player g in set_player-SameMoney a (deal (s.node a).player g).0 s k.0 k.1

  later :
      (s s' : Store) (o : Option (G × Store))
      → SameMoney s s'
      → OnSome (λ r. SameMoney s' r.1) o
      → OnSome (λ r. SameMoney s r.1) o
  later s s' none h k = tt
  later s s' (some r) h k = SameMoney_trans h k

  deal_loop-SameMoney :
      DealsOnly
      → (fuel : ℕ) (head a : Addr) (first : Bool) (gs : G × Store)
      → OnSome (λ r. SameMoney gs.1 r.1) (deal_loop deal fuel head a first gs)
  unfolding deal_loop
  deal_loop-SameMoney d zero head a first gs = tt
  deal_loop-SameMoney d (suc fuel) head a first gs =
      let gs' : G × Store = deal_step deal a gs in
      let here : SameMoney gs.1 gs'.1 = step-SameMoney d a gs in
      elim (Option-cases (gs'.1.node a).next) [
        | inl e ↦ rw (deal_loop, e) here
        | inr (b, e) ↦ elim (Bool-cases ((b == head) && not first)) [
          | inl c ↦ rw (deal_loop, e, c) here
          | inr c ↦
              rw (deal_loop, e, c)
                (later gs.1 gs'.1 _ here (deal_loop-SameMoney d fuel head b false gs'))
        ]
      ]

  -- The dealing loop under `handle_round_action`, whose game goes on.
  dealt-SameMoney :
      (s : Store) (o : Option (G × Store))
      → OnSome (λ r. SameMoney s r.1) o
      → OnSome
          (λ r. SameMoney s r.0.1)
          (elim o as (λ _. Option ((G × Store) × Bool)) [
            | none ↦ none
            | some gs ↦ some (gs, false)
          ])
  dealt-SameMoney s none h = tt
  dealt-SameMoney s (some gs) h = h

draw_deals : DealsOnly FiveCardDraw.deal_to_player
unfolding FiveCardDraw.deal_to_player
draw_deals p g = ground arith

holdem_deals : DealsOnly TexasHoldem.deal_to_player
unfolding TexasHoldem.deal_to_player
holdem_deals p g = ground arith

stud_deals : DealsOnly SevenCardStud.deal_to_player
unfolding SevenCardStud.deal_to_player
stud_deals p g = ground arith

replace_cards-money :
    (n : PlayerNode) (discard : List ℕ) (g : FiveCardDraw.State)
    → ((replace_cards n discard g).0.0.player.wallet ≡ n.player.wallet)
      × ((replace_cards n discard g).0.0.player.bet ≡ n.player.bet)
unfolding replace_cards
replace_cards-money n discard g = ground arith

client_action-money :
    (n : PlayerNode) (parts : List Text) (g : FiveCardDraw.State)
    → ((FiveCardDraw.client_action n parts g).0.0.player.wallet ≡ n.player.wallet)
      × ((FiveCardDraw.client_action n parts g).0.0.player.bet ≡ n.player.bet)
unfolding FiveCardDraw.client_action
client_action-money n [] g = ground arith
client_action-money n (command ∷ rest) g = elim (Option-cases (FiveCardDraw.parse_all rest)) [
  | inl e ↦ ground (arith, e)
  | inr (discard, e) ↦ ground (arith, e, replace_cards-money n discard g)
]

five_card_draw-round :
    (fuel : ℕ) (head : Option Addr) (g : FiveCardDraw.State) (s : Store)
    → OnSome (λ r. SameMoney s r.0.1) (FiveCardDraw.handle_round_action fuel head (g, s))
unfolding FiveCardDraw.handle_round_action
five_card_draw-round fuel head g s = elim (Bool-cases (g.round == 0)) [
  | inr c ↦ rw (c) (SameMoney_refl s)
  | inl c ↦ elim (Option-cases head) [
    | inl e ↦ rw (c, e) (SameMoney_refl s)
    | inr (a, e) ↦
        rw (c, e)
          (dealt-SameMoney FiveCardDraw.deal_to_player s _
            (deal_loop-SameMoney FiveCardDraw.deal_to_player draw_deals fuel a a true (g, s)))
  ]
]

texas_holdem-round :
    (fuel : ℕ) (head : Option Addr) (g : TexasHoldem.State) (s : Store)
    → OnSome (λ r. SameMoney s r.0.1) (TexasHoldem.handle_round_action fuel head (g, s))
unfolding TexasHoldem.handle_round_action
texas_holdem-round fuel head g s = elim (Bool-cases (g.round == 0)) [
  | inr c ↦ elim (Bool-cases (g.round == 1)) [
    | inl d ↦ rw (c, d) (SameMoney_refl s)
    | inr d ↦ elim (Bool-cases (g.round == 2)) [
      | inl f ↦ rw (c, d, f) (SameMoney_refl s)
      | inr f ↦ elim (Bool-cases (g.round == 3)) [
        | inl h ↦ rw (c, d, f, h) (SameMoney_refl s)
        | inr h ↦ rw (c, d, f, h) (SameMoney_refl s)
      ]
    ]
  ]
  | inl c ↦ elim (Option-cases head) [
    | inl e ↦ rw (c, e) (SameMoney_refl s)
    | inr (a, e) ↦
        rw (c, e)
          (dealt-SameMoney TexasHoldem.deal_to_player s _
            (deal_loop-SameMoney TexasHoldem.deal_to_player holdem_deals fuel a a true (g, s)))
  ]
]

seven_card_stud-round :
    (fuel : ℕ) (head : Option Addr) (g : SevenCardStud.State) (s : Store)
    → OnSome (λ r. SameMoney s r.0.1) (SevenCardStud.handle_round_action fuel head (g, s))
unfolding SevenCardStud.handle_round_action
seven_card_stud-round fuel head g s = elim (Bool-cases (ltb 4 g.round)) [
  | inl c ↦ rw (c) (SameMoney_refl s)
  | inr c ↦ elim (Option-cases head) [
    | inl e ↦ rw (c, e) (SameMoney_refl s)
    | inr (a, e) ↦
        rw (c, e)
          (dealt-SameMoney SevenCardStud.deal_to_player s _
            (deal_loop-SameMoney SevenCardStud.deal_to_player stud_deals fuel a a true (g, s)))
  ]
]

-- Neither the actions nor the rounds of the three games change a wallet or a bet.
pub games-KeepsMoney :
    KeepsMoney five_card_draw × KeepsMoney texas_holdem × KeepsMoney seven_card_stud
unfolding five_card_draw texas_holdem seven_card_stud TexasHoldem.client_action
    SevenCardStud.client_action
games-KeepsMoney = (
  record {
    action_wallet = λ n parts g. (client_action-money n parts g).0;
    action_bet = λ n parts g. (client_action-money n parts g).1;
    round = five_card_draw-round;
  },
  record {
    action_wallet = λ n parts g. refl;
    action_bet = λ n parts g. refl;
    round = texas_holdem-round;
  },
  record {
    action_wallet = λ n parts g. refl;
    action_bet = λ n parts g. refl;
    round = seven_card_stud-round;
  },
)
