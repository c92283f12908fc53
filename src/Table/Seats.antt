-- ===== src/Table/Seats.antt =====
-- Players who come and go: `rebuild_full_ring`, `add_player_with_optional_stream` and
-- `remove_player` of Server/src/lib.rs.
pub mod Laws
pub mod Leaving
pub mod Gone
use rust_poker.Base.{
  ℕ, List, [], ◌∷◌, Option, none, some, Bool, true, false, if◌then◌else◌, leb, is_empty, is_some,
  length, map, contains,
}
use rust_poker.Game.{Game}
use rust_poker.Player.{Player, PlayerNode, Addr, Stream}
use rust_poker.Store.{Store, set_node, alloc, points_to}
use rust_poker.Table
use rust_poker.Table.{
  Table, Players, addresses, Result, ok, err, removed, table_full, player_not_found,
  max_players_per_table, lookup, remove_key, player_send, player_send_holding, delete_player,
}
use rust_poker.Table.Finish.{fold, set_next, set_prev}

abbrev pub last_of : Addr → List Addr → Addr
last_of a [] = a
last_of a (b ∷ bs) = last_of b bs

-- The pointers `nextf` and `prevf` of one node.
unfoldable pub set_full : Addr → Option Addr → Option Addr → Store → Store
set_full a nextf prevf s = set_node a (record (s.node a) { nextf = nextf; prevf = prevf }) s

-- The loop over the nodes: the one before `a`, and the first one, which follows the last.
unfoldable pub link_nodes : Addr → Addr → Addr → List Addr → Store → Store
unfolding set_full
link_nodes first before a [] s = set_full a (some first) (some before) s
link_nodes first before a (b ∷ bs) s = link_nodes first a b bs (set_full a (some b) (some before) s)

unfoldable pub link_ring : List Addr → Store → Store
unfolding link_nodes
link_ring [] s = s
link_ring (a ∷ rest) s = link_nodes a (last_of a rest) a rest s

-- A pointer that is kept if its node is still at the table.
abbrev pub still_present : List Addr → Option Addr → Bool
still_present nodes none = false
still_present nodes (some a) = contains nodes a

abbrev pub set_nextf : Option Addr → Option Addr → Store → Store
set_nextf none v s = s
set_nextf (some a) v s = set_node a (record (s.node a) { nextf = v }) s

abbrev pub set_prevf : Option Addr → Option Addr → Store → Store
set_prevf none v s = s
set_prevf (some a) v s = set_node a (record (s.node a) { prevf = v }) s

module _ {G : Game} where
  unfoldable pub rebuild_full_ring : Table G → Table G
  unfolding link_ring Table.reset
  rebuild_full_ring t = elim (addresses t.players) [
    | [] ↦ Table.reset (record t {
      head = none;
      bettor = none;
      blind = none;
      turn = none;
      showdown = none;
      next_game_players = [];
      turn_started_at = none;
    })
    | a ∷ rest ↦
        let head = if still_present (a ∷ rest) t.head then t.head else some a in
        let blind = if still_present (a ∷ rest) t.blind then t.blind else head in
        record t { store = link_ring (a ∷ rest) t.store; head = head; blind = blind }
  ]

  -- A new node before `head` in the full ring. `none`: the head has no `prevf`, and the code
  -- panics.
  unfoldable pub seat : Addr → Table G → Option (Table G)
  seat a t = elim t.head [
    | none ↦ some (record t {
      store = set_prevf (some a) (some a) (set_nextf (some a) (some a) t.store);
      head = some a;
      blind = some a;
    })
    | some head ↦ elim (t.store.node head).prevf [
      | none ↦ none
      | some tail ↦
          let s = set_prevf (some a) (some tail) (set_nextf (some tail) (some a) t.store) in
          some
            (record t { store = set_prevf (some head) (some a) (set_nextf (some a) (some head) s) })
    ]
  ]

  -- `insert` is the hash map's: where it places a new entry and how it moves the others is its own.
  module _ (insert : ℕ → Addr → Players → Players) where
    unfoldable pub add_player_with_optional_stream :
        Player → Option Stream → Table G → Option (Table G × Result)
    unfolding seat alloc
    add_player_with_optional_stream p stream t = elim (lookup p.id t.players) [
      | some a ↦
          let n = t.store.node a in
          let n' = record n { player = record (n.player) { name = p.name }; stream = stream } in
          let t' = record t { store = set_node a n' t.store } in
          some (t', player_send_holding (some a) p.id t')
      | none ↦
          if leb max_players_per_table (length t.players)
          then some (t, err table_full)
          else (let n : PlayerNode = record {
            player = p;
            stream = stream;
            nextf = none;
            prevf = none;
            next = none;
            prev = none;
          } in
              let (a, s) = alloc n t.store in
              elim (seat a (record t { store = s })) [
                | none ↦ none
                | some t' ↦
                    let t'' = record t' { players = insert p.id a t'.players } in
                    some (t'', player_send p.id t'')
              ])
    ]

    unfoldable pub add_player : Player → Table G → Option (Table G × Result)
    unfolding add_player_with_optional_stream
    add_player p t = add_player_with_optional_stream p none t

  -- `remove_player` after the fold.
  unfoldable pub leave : ℕ → Table G → Table G × Result
  unfolding rebuild_full_ring remove_key delete_player
  leave id t = elim (lookup id t.players) [
    | none ↦ (t, err player_not_found)
    | some a ↦
        let n = t.store.node a in
        let s = set_node a (record n { nextf = none; prevf = none }) t.store in
        let s' = set_prevf n.nextf n.prevf (set_nextf n.prevf n.nextf s) in
        let after = if points_to a n.nextf then none else n.nextf in
        let t' = record t {
          store = s';
          head = if points_to a t.head then after else t.head;
          players = remove_key id t.players;
        } in
        (delete_player id (rebuild_full_ring t'), ok removed)
  ]

  unfoldable pub remove_player : ℕ → ℕ → Table G → Option (Table G × Result)
  unfolding leave fold
  remove_player now id t = elim (fold now id t) [
    | none ↦ none
    | some (t', ok _) ↦ some (leave id t')
    | some (t', err e) ↦ some (t', err e)
  ]
