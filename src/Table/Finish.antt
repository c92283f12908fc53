-- ===== src/Table/Finish.antt =====
-- `end_game` and `fold` of Server/src/lib.rs.
pub mod Chips
pub mod Folds
use rust_poker.Base.{
  ℕ, zero, suc, ◌+◌, List, [], ◌∷◌, ◌++◌, Option, none, some, Bool, true, false, not, ◌&&◌, ◌||◌,
  if◌then◌else◌, ◌==◌, ltb, is_empty, is_some, map,
}
use rust_poker.Game.{Game}
use rust_poker.Hand.{Hand}
use rust_poker.Hand.Evaluate.{evaluate}
use rust_poker.Hand.Rank.{HandRank}
use rust_poker.Hand.Text
use rust_poker.Hand.Used.{cards_used_against}
use rust_poker.Player
use rust_poker.Player.{Player, PlayerNode, Addr}
use rust_poker.Store.{Store, set_node, set_player, points_to}
use rust_poker.Table.{
  Table, Players, Shown, Showdown, Result, Error, ok, err, player_not_found, lookup, player_at,
  mark_turn_started, persist_player, player_send, trigger_save,
}
use rust_poker.Table.Pots.{unfolded, pay_showdown_pots}

-- A player of the showdown with the hand that is shown and its rank.
abbrev pub Entry : Type 0
Entry = ℕ × Player × Hand × HandRank

module _ {G : Game} where
  unfoldable pub showdown_entries : Table G → Players → List Entry
  showdown_entries t [] = []
  showdown_entries t ((id, a) ∷ m) =
      let p = player_at t a in
      let shown = G.showdown_hand t.game p.hand in
      if p.folded
      then showdown_entries t m
      else (id, p, shown, evaluate shown) ∷ showdown_entries t m

abbrev pub rank_of : Entry → HandRank
rank_of (_, _, _, rank) = rank

unfoldable pub shown : List HandRank → Entry → Shown
shown others (id, p, hand, rank) = record {
  id = id;
  name = p.name;
  hand = p.hand;
  rank = Text.to_string rank;
  rank_cards = cards_used_against rank hand.cards others;
}

-- Each entry against the ranks before and after it.
unfoldable pub show_all : List HandRank → List Entry → List Shown
unfolding shown
show_all before [] = []
show_all before (e ∷ es) =
    shown (before ++ map rank_of es) e ∷ show_all (before ++ rank_of e ∷ []) es

-- A node as it is between games.
unfoldable pub cleared : PlayerNode → PlayerNode
cleared n = record n { player = Player.reset n.player; next = none; prev = none }

-- `Arc::ptr_eq` with the node that leaves.
abbrev pub replaced : Addr → Option Addr → Option Addr → Option Addr
replaced a by o = if points_to a o then by else o

abbrev pub set_next : Option Addr → Option Addr → Store → Store
set_next none v s = s
set_next (some a) v s = set_node a (record (s.node a) { next = v }) s

abbrev pub set_prev : Option Addr → Option Addr → Store → Store
set_prev none v s = s
set_prev (some a) v s = set_node a (record (s.node a) { prev = v }) s

abbrev pub same_node : Option Addr → Option Addr → Bool
same_node (some a) (some b) = a == b
same_node _ _ = false

-- The node `a` taken out of the ring of active players.
unfoldable pub unlink : Addr → Store → Store
unlink a s =
    let n = s.node a in
    let s' =
      set_node a
        (record n { player = record (n.player) { folded = true }; next = none; prev = none }) s in
    set_prev n.next n.prev (set_next n.prev n.next s')

module _ {G : Game} where
  -- The loop over all players: reset, unlink, persist. What is sent is not looked at.
  unfoldable pub clear_players : Players → Table G → Table G
  unfolding cleared
  clear_players [] t = t
  clear_players ((id, a) ∷ m) t =
      let n = cleared (t.store.node a) in
      clear_players m (persist_player n.player (record t { store = set_node a n t.store }))

  -- The blind moves on by the full ring.
  unfoldable pub next_blind : Table G → Option Addr
  next_blind t = elim t.blind [ none ↦ none | some b ↦ (t.store.node b).nextf ]

  -- `end_game` from the payment on.
  unfoldable pub settle : ℕ → Table G → Table G
  unfolding clear_players next_blind
  settle winner t =
      let paid = pay_showdown_pots t in
      elim (lookup winner paid.players) [
        | none ↦ paid
        | some a ↦
            let c = clear_players paid.players paid in
            trigger_save "end" (record c {
              head = some a;
              blind = next_blind c;
              turn = none;
              bettor = none;
              turn_started_at = none;
              pot = 0;
            })
      ]

  unfoldable pub end_game : Table G → Table G
  unfolding settle showdown_entries show_all
  end_game t =
      let hands = unfolded G t.game t.players t.store t.players in
      if is_empty hands then t else elim (G.determine_winner t.game hands) [
        | none ↦ t
        | some id ↦ settle id (record t {
          showdown =
              some (record { winner = id; players = show_all [] (showdown_entries t t.players) });
          next_game_players = [];
        })
      ]

  -- `none`: the node is its own neighbour, and the call locks it twice and does not return.
  unfoldable pub fold : ℕ → ℕ → Table G → Option (Table G × Result)
  unfolding unlink end_game
  fold now id t = elim (lookup id t.players) [
    | none ↦ some (t, err player_not_found)
    | some a ↦
        let prev = (t.store.node a).prev in
        let next = (t.store.node a).next in
        let p = record (player_at t a) { folded = true } in
        let t' = mark_turn_started now (record t {
          store = unlink a t.store;
          head = replaced a next t.head;
          bettor = replaced a prev t.bettor;
          blind = replaced a prev t.blind;
          turn = replaced a prev t.turn;
        }) in
        let t'' = persist_player p (if same_node prev next then end_game t' else t') in
        if points_to a prev || points_to a next then none else some (t'', player_send id t'')
  ]
