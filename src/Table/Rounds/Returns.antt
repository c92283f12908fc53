-- ===== src/Table/Rounds/Returns.antt =====
-- `advance_turn` of Server/src/lib.rs as a whole, on a ring of active players.
use rust_poker.Base.{
  ℕ, zero, suc, ◌+◌, ◌%◌, ◌<◌, ◌≡◌, ◌≢◌, refl, ◌∙◌, List, ◌∷◌, Option, none, some, Option-cases,
  Bool, true, false, ◌&&◌, Bool-cases, inl, inr, if◌then◌else◌, ◌==◌, ltb, length, find, All, arith,
}
use rust_poker.Game.{Game}
use rust_poker.Game.FiveCardDraw
use rust_poker.Game.FiveCardDraw.{five_card_draw}
use rust_poker.Game.TexasHoldem
use rust_poker.Game.TexasHoldem.{texas_holdem}
use rust_poker.Player.{Addr}
use rust_poker.Store.{Store}
use rust_poker.Store.Links.{Ring}
use rust_poker.Table.{Table, player_at, mark_turn_started, trigger_save}
use rust_poker.Table.Finish.{end_game}
use rust_poker.Table.Money.{Distinct}
use rust_poker.Table.Rounds.{
  round_action, finish_rounds, finish_remaining_rounds, is_round_complete, end_turn, advance_turn,
}
use rust_poker.Table.Rounds.Turns.{
  can_bet, has_matched, every, next_betting_node-find, all_matched-every,
}

-- A game that deals around the ring in its first round only: the later rounds return whatever the
-- ring is, and stay in the round.
pub record DealsFirst (G : Game) : Type 0 where
  pub later :
      (fuel : ℕ) (head : Option Addr) (g : G.State) (s : Store)
      → G.get_round g ≢ 0
      → (r : (G.State × Store) × Bool) × (G.handle_round_action fuel head (g, s) ≡ some r)
        × (G.get_round r.0.0 ≡ G.get_round g)
  pub next : (g : G.State) → G.get_round (G.advance_round g) ≡ (G.get_round g + 1) % 256

-- The active players from the one on turn on, with different ids, and enough fuel for a walk.
pub record Active {G : Game} (fuel : ℕ) (t : Table G) (current : Addr) (rest : List Addr)
    : Type 0 where
  pub on_turn : t.turn ≡ some current
  pub ring : Ring t.store current rest
  pub nodes : Distinct (current ∷ rest)
  pub ids : All (λ x. (player_at t x).id ≢ (player_at t current).id) rest
  pub enough : length rest < fuel

holdem_later :
    (fuel : ℕ) (head : Option Addr) (g : TexasHoldem.State) (s : Store)
    → g.round ≢ 0
    → (r : (TexasHoldem.State × Store) × Bool) × (TexasHoldem.handle_round_action fuel head (g, s)
        ≡ some r)
      × (r.0.0.round ≡ g.round)
unfolding TexasHoldem.handle_round_action TexasHoldem.deal_community
holdem_later fuel head g s n =
    let first : (g.round == 0) ≡ false = ground (arith, n) in
    elim (Bool-cases (g.round == 1)) [
      | inl d ↦ (((TexasHoldem.deal_community 3 g, s), false), rw (first, d) refl, refl)
      | inr d ↦ elim (Bool-cases (g.round == 2)) [
        | inl f ↦ (((TexasHoldem.deal_community 1 g, s), false), rw (first, d, f) refl, refl)
        | inr f ↦ elim (Bool-cases (g.round == 3)) [
          | inl h ↦ (((TexasHoldem.deal_community 1 g, s), false), rw (first, d, f, h) refl, refl)
          | inr h ↦ (((g, s), true), rw (first, d, f, h) refl, refl)
        ]
      ]
    ]

draw_later :
    (fuel : ℕ) (head : Option Addr) (g : FiveCardDraw.State) (s : Store)
    → g.round ≢ 0
    → (r : (FiveCardDraw.State × Store) × Bool) × (FiveCardDraw.handle_round_action fuel head (g, s)
        ≡ some r)
      × (r.0.0.round ≡ g.round)
unfolding FiveCardDraw.handle_round_action
draw_later fuel head g s n =
    let first : (g.round == 0) ≡ false = ground (arith, n) in
    (((g, s), ltb 2 g.round), rw (first) refl, refl)

module _ {G : Game} where
  -- What a turn comes to: the rounds that are left, where nobody else can bet; the next round, where
  -- the turn has come round and the bets are matched; else the turn of the next who can bet.
  unfoldable pub turn_result : ℕ → ℕ → List Addr → Table G → Option (Table G)
  turn_result fuel now rest t = elim (find (λ x. can_bet (t.store.node x)) rest) [
    | none ↦ finish_remaining_rounds fuel t
    | some next ↦
        let t' = mark_turn_started now (record t { turn = some next }) in
        if is_round_complete next t' && every (λ x. has_matched t.bet (t.store.node x)) rest
        then end_turn fuel t'
        else some t'
  ]

  advance_turn-turn_result :
      (fuel now : ℕ) (t : Table G) (current : Addr) (rest : List Addr)
      → Active fuel t current rest
      → advance_turn fuel now t ≡ turn_result fuel now rest t
  unfolding advance_turn turn_result mark_turn_started
  advance_turn-turn_result fuel now t current rest v =
      let next =
        next_betting_node-find t.store current rest fuel v.ring (omega (arith, v.enough)) in
      let same =
        all_matched-every t.store current rest fuel t.bet v.ring.linked v.ring.two v.nodes v.ids
          v.enough in
      elim (Option-cases (find (λ x. can_bet (t.store.node x)) rest)) [
        | inl e ↦ rw (advance_turn, v.on_turn, next, turn_result, e) refl
        | inr (b, e) ↦ rw (advance_turn, v.on_turn, next, turn_result, e, same) refl
      ]

  round_action-returns :
      (deals : DealsFirst G) (fuel : ℕ) (t : Table G)
      → G.get_round t.game ≢ 0
      → (r : Table G × Bool) × (round_action fuel t ≡ some r)
        × (r.1 ≡ true → G.get_round r.0.game ≡ G.get_round t.game)
  unfolding round_action
  round_action-returns deals fuel t n =
      let (((g, s), over), e, same) = deals.later fuel t.turn t.game t.store n in
      let t' : Table G = record t { game = g; store = s } in
      elim (Bool-cases over) [
        | inl c ↦
            ((end_game t', false), rw (round_action, e, c) refl, λ q. absurd (ground (arith, q)))
        | inr c ↦ ((t', true), rw (round_action, e, c) refl, λ q. same)
      ]

  finish_rounds-returns :
      (deals : DealsFirst G) (fuel n : ℕ) (t : Table G)
      → G.get_round t.game + n < 256
      → (u : Table G) × (finish_rounds fuel n t ≡ some u)
  unfolding finish_rounds
  finish_rounds-returns deals fuel zero t h = (t, refl)
  finish_rounds-returns deals fuel (suc n) t h =
      let t' : Table G = record t { game = G.advance_round t.game } in
      let on : G.get_round t'.game ≡ G.get_round t.game + 1 = omega (arith, deals.next t.game, h) in
      let ((u, over), e, same) = round_action-returns deals fuel t' (omega (arith, on)) in
      elim (Bool-cases over) [
        | inr c ↦ (u, rw (finish_rounds, e, c) refl)
        | inl c ↦
            let (v, f) = finish_rounds-returns deals fuel n u (omega (arith, same c, on, h)) in
            (v, rw (finish_rounds, e, c) f)
      ]

  end_turn-returns :
      (deals : DealsFirst G) (fuel : ℕ) (t : Table G)
      → G.get_round t.game + 1 < 256
      → (u : Table G) × (end_turn fuel t ≡ some u)
  unfolding end_turn
  end_turn-returns deals fuel t h =
      let t' : Table G = record t { game = G.advance_round t.game } in
      let on : G.get_round t'.game ≡ G.get_round t.game + 1 = omega (arith, deals.next t.game, h) in
      let ((u, over), e, same) = round_action-returns deals fuel t' (omega (arith, on)) in
      elim (Bool-cases over) [
        | inl c ↦ (trigger_save "advance" u, rw (end_turn, e, c) refl)
        | inr c ↦ (u, rw (end_turn, e, c) refl)
      ]

  turn_result-returns :
      (deals : DealsFirst G) (fuel now : ℕ) (rest : List Addr) (t : Table G)
      → G.get_round t.game + 20 < 256
      → (u : Table G) × (turn_result fuel now rest t ≡ some u)
  unfolding turn_result finish_remaining_rounds mark_turn_started
  turn_result-returns deals fuel now rest t h =
      elim (Option-cases (find (λ x. can_bet (t.store.node x)) rest)) [
        | inl e ↦ let (u, f) = finish_rounds-returns deals fuel 20 t h in (u, rw (turn_result, e) f)
        | inr (next, e) ↦
            let t' : Table G = mark_turn_started now (record t { turn = some next }) in
            let over =
              is_round_complete next t' && every (λ x. has_matched t.bet (t.store.node x)) rest in
            elim (Bool-cases over) [
              | inl c ↦
                  let (u, f) = end_turn-returns deals fuel t' (omega (arith, h)) in
                  (u, rw (turn_result, e, c) f)
              | inr c ↦ (t', rw (turn_result, e, c) refl)
            ]
      ]

  -- On a ring of active players with different ids, with enough fuel for one walk around it,
  -- `advance_turn` returns, before round 236 of a game that deals in its first round only. It plays
  -- the rounds that are left if none of the others can bet; else the turn passes to the next who can,
  -- and the next round begins if the turn has come round to the bettor and all bets are matched.
  pub advance_turn-returns :
      (deals : DealsFirst G) (fuel now : ℕ) (t : Table G) (current : Addr) (rest : List Addr)
      → Active fuel t current rest
      → G.get_round t.game + 20 < 256
      → (u : Table G) × (advance_turn fuel now t ≡ some u) × (turn_result fuel now rest t ≡ some u)
  advance_turn-returns deals fuel now t current rest v h =
      let (u, e) = turn_result-returns deals fuel now rest t h in
      (u, advance_turn-turn_result fuel now t current rest v ∙ e, e)

-- Texas hold'em and five-card draw deal around the ring in their first round only.
pub games-DealsFirst : DealsFirst texas_holdem × DealsFirst five_card_draw
unfolding texas_holdem five_card_draw
games-DealsFirst = (
  record { later = holdem_later; next = λ g. refl },
  record { later = draw_later; next = λ g. refl },
)
