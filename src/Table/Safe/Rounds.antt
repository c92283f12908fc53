-- ===== src/Table/Safe/Rounds.antt =====
-- The invariant across the rounds of Server/src/lib.rs: `game_actions`, `advance_turn`, `start_game`.
use rust_poker.Base.{
  ℕ, zero, suc, ◌≡◌, refl, subst, List, Option, none, some, Option-cases, OnSome, true, ◌&&◌,
  Bool-cases, inl, inr,
}
use rust_poker.Base.Text.{Text}
use rust_poker.Game.{Game, Action, done, refused, panics}
use rust_poker.Player.{PlayerNode, Addr}
use rust_poker.Store.{Store, set_node}
use rust_poker.Table.{
  Table, Result, err, action_refused, player_send, lookup, player_at, mark_turn_started,
  trigger_save,
}
use rust_poker.Table.Pots.Laws.{FindsWinner}
use rust_poker.Table.Rounds.{
  game_actions, round_action, finish_rounds, finish_remaining_rounds, end_turn, advance_turn,
  next_betting_node, all_matched, is_round_complete,
}
use rust_poker.Table.Safe.{Safe, Safe-same}
use rust_poker.Table.Safe.Ending.{end_game-Safe}
use rust_poker.Table.Same.{SameMoney, SameMoney_refl, set_node-SameMoney}

-- A game moves no chips: neither a client's action nor a round changes a wallet or a bet.
pub record KeepsMoney (G : Game) : Type 0 where
  pub action_wallet :
      (n : PlayerNode) (parts : List Text) (g : G.State)
      → (G.client_action n parts g).0.0.player.wallet ≡ n.player.wallet
  pub action_bet :
      (n : PlayerNode) (parts : List Text) (g : G.State)
      → (G.client_action n parts g).0.0.player.bet ≡ n.player.bet
  pub round :
      (fuel : ℕ) (head : Option Addr) (g : G.State) (s : Store)
      → OnSome (λ r. SameMoney s r.0.1) (G.handle_round_action fuel head (g, s))

module _ {G : Game} (find : FindsWinner G) (keeps : KeepsMoney G) {total : ℕ} where
  answered :
      (id : ℕ) (x : Action) (t : Table G)
      → Safe total t
      → OnSome
          (λ r. Safe total r.0)
          (elim x as (λ _. Option (Table G × Result)) [
            | done ↦ some (t, player_send id t)
            | refused e ↦ some (t, err (action_refused e))
            | panics ↦ none
          ])
  answered id done t v = v
  answered id (refused e) t v = v
  answered id panics t v = tt

  pub game_actions-Safe :
      (id : ℕ) (parts : List Text) (t : Table G)
      → Safe total t
      → OnSome (λ r. Safe total r.0) (game_actions id parts t)
  unfolding game_actions
  game_actions-Safe id parts t v = elim (Option-cases (lookup id t.players)) [
    | inl e ↦ rw (game_actions, e) v
    | inr (a, e) ↦
        let r = G.client_action (t.store.node a) parts t.game in
        let n = r.0.0 in
        let same =
          set_node-SameMoney a n t.store (keeps.action_wallet _ parts t.game)
            (keeps.action_bet _ parts t.game) in
        let t' : Table G = record t { store = set_node a n t.store; game = r.0.1 } in
        let w : Safe total t' = Safe-same t t' refl same refl refl v in
        rw (game_actions, e) (answered id r.1 t' w)
  ]

  pub round_action-Safe :
      (fuel : ℕ) (t : Table G) → Safe total t → OnSome (λ r. Safe total r.0) (round_action fuel t)
  unfolding round_action
  round_action-Safe fuel t v =
      let same = keeps.round fuel t.turn t.game t.store in
      elim (Option-cases (G.handle_round_action fuel t.turn (t.game, t.store))) [
        | inl e ↦ rw (round_action, e) tt
        | inr (((g, s), over), e) ↦
            let k : SameMoney t.store s = subst (OnSome (λ r. SameMoney t.store r.0.1)) e same in
            let t' : Table G = record t { game = g; store = s } in
            let w : Safe total t' = Safe-same t t' refl k refl refl v in
            elim (Bool-cases over) [
              | inl c ↦ rw (round_action, e, c) (end_game-Safe find t' w)
              | inr c ↦ rw (round_action, e, c) w
            ]
      ]

  finish_rounds-Safe :
      (fuel n : ℕ) (t : Table G) → Safe total t → OnSome (Safe total) (finish_rounds fuel n t)
  unfolding finish_rounds
  finish_rounds-Safe fuel zero t v = v
  finish_rounds-Safe fuel (suc n) t v =
      let t' : Table G = record t { game = G.advance_round t.game } in
      let w : Safe total t' = Safe-same t t' refl (SameMoney_refl t.store) refl refl v in
      let r = round_action-Safe fuel t' w in
      elim (Option-cases (round_action fuel t')) [
        | inl e ↦ rw (finish_rounds, e) tt
        | inr ((u, on), e) ↦
            let x : Safe total u = subst (OnSome (λ r. Safe total r.0)) e r in
            elim (Bool-cases on) [
              | inl c ↦ rw (finish_rounds, e, c) (finish_rounds-Safe fuel n u x)
              | inr c ↦ rw (finish_rounds, e, c) x
            ]
      ]

  end_turn-Safe : (fuel : ℕ) (t : Table G) → Safe total t → OnSome (Safe total) (end_turn fuel t)
  unfolding end_turn trigger_save
  end_turn-Safe fuel t v =
      let t' : Table G = record t { game = G.advance_round t.game } in
      let w : Safe total t' = Safe-same t t' refl (SameMoney_refl t.store) refl refl v in
      let r = round_action-Safe fuel t' w in
      elim (Option-cases (round_action fuel t')) [
        | inl e ↦ rw (end_turn, e) tt
        | inr ((u, on), e) ↦
            let x : Safe total u = subst (OnSome (λ r. Safe total r.0)) e r in
            elim (Bool-cases on) [
              | inl c ↦
                  rw (end_turn, e, c)
                    (Safe-same u (trigger_save "advance" u) refl (SameMoney_refl u.store) refl refl
                      x)
              | inr c ↦ rw (end_turn, e, c) x
            ]
      ]

  pub advance_turn-Safe :
      (fuel now : ℕ) (t : Table G) → Safe total t → OnSome (Safe total) (advance_turn fuel now t)
  unfolding advance_turn finish_remaining_rounds mark_turn_started
  advance_turn-Safe fuel now t v = elim (Option-cases t.turn) [
    | inl e ↦ rw (advance_turn, e) v
    | inr (current, e) ↦ elim (Option-cases (next_betting_node fuel current t.store)) [
      | inl f ↦ rw (advance_turn, e, f) tt
      | inr (none, f) ↦ rw (advance_turn, e, f) (finish_rounds-Safe fuel 20 t v)
      | inr (some next, f) ↦
          let t' : Table G = mark_turn_started now (record t { turn = some next }) in
          let w : Safe total t' = Safe-same t t' refl (SameMoney_refl t.store) refl refl v in
          elim (Option-cases
            (all_matched fuel t'.bet (player_at t current).id current true t'.store)) [
              | inl g ↦ rw (advance_turn, e, f, g) tt
              | inr (matched, g) ↦ elim (Bool-cases (is_round_complete next t' && matched)) [
                | inl c ↦ rw (advance_turn, e, f, g, c) (end_turn-Safe fuel t' w)
                | inr c ↦ rw (advance_turn, e, f, g, c) w
              ]
            ]
    ]
  ]
