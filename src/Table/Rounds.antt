-- ===== src/Table/Rounds.antt =====
-- The course of a game: `game_actions`, `start_game`, `advance_turn` and the rounds of
-- Server/src/lib.rs. `none` stands for a call that does not return:
-- a panic, a node locked twice, or a loop whose fuel runs out. `now` is the clock in seconds.
pub mod Turns
pub mod DealIn
pub mod Antes
pub mod Returns
pub mod Cycles
pub mod Opens
pub mod Kept
pub mod Starts
use rust_poker.Base.{
  ℕ, zero, suc, ◌-◌, List, [], ◌∷◌, Option, none, some, Bool, true, false, not, ◌&&◌, ◌||◌, String,
  if◌then◌else◌, ◌==◌, ltb, is_some, contains,
}
use rust_poker.Base.Text.{Text}
use rust_poker.Game.{Game, done, refused, panics}
use rust_poker.Player.{Addr, PlayerNode}
use rust_poker.Store.{Store, set_node, points_to}
use rust_poker.Table
use rust_poker.Table.{
  Table, Players, Result, ok, err, action_refused, player_not_found, turn_timeout, lookup,
  mark_turn_started, player_at, player_send, trigger_save, is_running,
}
use rust_poker.Table.Bets.{raise, check}
use rust_poker.Table.Finish.{end_game}
use rust_poker.Table.Seats.{rebuild_full_ring, remove_player}

-- A node as it is at the start of a game.
unfoldable pub dealt_in : PlayerNode → PlayerNode
dealt_in n = record n {
  player = record (n.player) { folded = false; hand = record { cards = [] } };
  next = n.nextf;
  prev = n.prevf;
}

-- The loop of `start_game` around the full ring.
unfoldable pub deal_in : ℕ → Addr → Addr → Bool → Store → Option Store
unfolding dealt_in
deal_in zero head a first s = none
deal_in (suc fuel) head a first s =
    let n = dealt_in (s.node a) in
    let s' = set_node a n s in
    elim n.nextf [
      | none ↦ some s'
      | some b ↦
          let rest = deal_in fuel head b false s' in
          if (b == head) && not first then some s' else rest
    ]

abbrev pub next_from : ℕ → Addr → Addr → Store → Option (Option Addr)
next_from zero current a s = none
next_from (suc fuel) current a s =
    let n = s.node a in
    let rest : Option (Option Addr) = elim n.next [
      | none ↦ some none
      | some b ↦ next_from fuel current b s
    ] in
    if not n.player.folded && ltb 0 n.player.wallet
    then some (some a)
    else if points_to current n.next
    then some none
    else rest

-- The first node after `current` that has not folded and has chips.
unfoldable pub next_betting_node : ℕ → Addr → Store → Option (Option Addr)
next_betting_node fuel current s = elim (s.node current).next [
  | none ↦ some none
  | some a ↦ next_from fuel current a s
]

-- The loop `all_matched` of `advance_turn`, from the node whose turn it was, with its player's id.
unfoldable pub all_matched : ℕ → ℕ → ℕ → Addr → Bool → Store → Option Bool
all_matched zero bet id a first s = none
all_matched (suc fuel) bet id a first s =
    let n = s.node a in
    let rest : Option Bool = elim n.next [
      | none ↦ some true
      | some b ↦ all_matched fuel bet id b false s
    ] in
    if not first && ltb 0 n.player.wallet && not (n.player.bet == bet)
    then some false
    else elim n.next [
      | none ↦ some true
      | some b ↦ if b == a then none else if (s.node b).player.id == id then some true else rest
    ]

module _ {G : Game} where
  unfoldable pub game_actions : ℕ → List Text → Table G → Option (Table G × Result)
  game_actions id parts t = elim (lookup id t.players) [
    | none ↦ some (t, err player_not_found)
    | some a ↦
        let ((n, g), action) = G.client_action (t.store.node a) parts t.game in
        let t' = record t { store = set_node a n t.store; game = g } in
        elim action [
          | done ↦ some (t', player_send id t')
          | refused e ↦ some (t', err (action_refused e))
          | panics ↦ none
        ]
  ]

  -- True: the game goes on.
  unfoldable pub round_action : ℕ → Table G → Option (Table G × Bool)
  unfolding end_game
  round_action fuel t = elim (G.handle_round_action fuel t.turn (t.game, t.store)) [
    | none ↦ none
    | some ((g, s), over) ↦
        let t' = record t { game = g; store = s } in
        some (if over then (end_game t', false) else (t', true))
  ]

  unfoldable pub finish_rounds : ℕ → ℕ → Table G → Option (Table G)
  unfolding round_action
  finish_rounds fuel zero t = some t
  finish_rounds fuel (suc n) t =
      elim (round_action fuel (record t { game = G.advance_round t.game })) [
        | none ↦ none
        | some (t', false) ↦ some t'
        | some (t', true) ↦ finish_rounds fuel n t'
      ]

  unfoldable pub finish_remaining_rounds : ℕ → Table G → Option (Table G)
  unfolding finish_rounds
  finish_remaining_rounds fuel t = finish_rounds fuel 20 t

  -- The loop of antes, from the blind around the full ring.
  unfoldable pub antes : ℕ → Addr → Addr → Bool → Table G → Option (Table G)
  unfolding check
  antes zero blind a first t = none
  antes (suc fuel) blind a first t =
      let n = t.store.node a in
      let t' = (check n.player.id t).0 in
      elim n.nextf [
        | none ↦ some t'
        | some b ↦
            let rest = antes fuel blind b false t' in
            if (b == blind) && not first then some t' else rest
      ]

  -- `start_game` from the blind's raise on.
  unfoldable pub open_game : ℕ → ℕ → Addr → Table G → Option (Table G)
  unfolding antes raise round_action mark_turn_started trigger_save
  open_game fuel now blind t =
      let raised = (raise (player_at t blind).id 50 t).0 in
      let started =
        if G.is_ante raised.game
        then antes fuel blind blind true (record raised { turn = some blind })
        else some (record raised { turn = (raised.store.node blind).next }) in
      elim started [
        | none ↦ none
        | some t' ↦ elim (round_action fuel (mark_turn_started now t')) [
          | none ↦ none
          | some (t'', _) ↦ some (trigger_save "start" t'')
        ]
      ]

  unfoldable pub start_game : ℕ → ℕ → (List ℕ → List ℕ) → Table G → Option (Table G)
  unfolding rebuild_full_ring open_game Table.reset deal_in
  start_game fuel now shuffle t =
      let t' = record (rebuild_full_ring t) { showdown = none; next_game_players = [] } in
      elim t'.head [
        | none ↦ some t'
        | some head ↦ elim (deal_in fuel head head true t'.store) [
          | none ↦ none
          | some s ↦
              let ready = Table.reset (record t' { store = s }) in
              let begun = record ready { game = G.start_game shuffle ready.game } in
              elim begun.blind [ none ↦ some begun | some blind ↦ open_game fuel now blind begun ]
        ]
      ]

  -- Whether the turn has come to the bettor, or the bettor has no chips left.
  unfoldable pub is_round_complete : Addr → Table G → Bool
  is_round_complete next t = elim t.bettor [
    | none ↦ (player_at t next).id == 0
    | some b ↦ ((player_at t next).id == (player_at t b).id) || ((player_at t b).wallet == 0)
  ]

  unfoldable pub end_turn : ℕ → Table G → Option (Table G)
  unfolding round_action trigger_save
  end_turn fuel t = elim (round_action fuel (record t { game = G.advance_round t.game })) [
    | none ↦ none
    | some (t', true) ↦ some (trigger_save "advance" t')
    | some (t', false) ↦ some t'
  ]

  unfoldable pub advance_turn : ℕ → ℕ → Table G → Option (Table G)
  unfolding next_betting_node all_matched is_round_complete end_turn finish_remaining_rounds
  advance_turn fuel now t = elim t.turn [
    | none ↦ some t
    | some current ↦ elim (next_betting_node fuel current t.store) [
      | none ↦ none
      | some none ↦ finish_remaining_rounds fuel t
      | some (some next) ↦
          let t' = mark_turn_started now (record t { turn = some next }) in
          let id = (player_at t current).id in
          elim (all_matched fuel t'.bet id current true t'.store) [
            | none ↦ none
            | some matched ↦
                if is_round_complete next t' && matched then end_turn fuel t' else some t'
          ]
    ]
  ]
