-- ===== src/Table/Seats/Leaving.antt =====
-- The ring of active players across `fold` of Server/src/lib.rs, and `remove_player` after it.
use rust_poker.Base.{ℕ, ◌≡◌, ◌≢◌, refl, sym, none, some, true, false, ◌==◌, arith}
use rust_poker.Game.{Game}
use rust_poker.Player.{Addr}
use rust_poker.Store.{Store, set_node}
use rust_poker.Table
use rust_poker.Table.{Table, Players, Result, err, write_failed, lookup, player_at, player_send}
use rust_poker.Table.Finish.{unlink, fold, set_next, set_prev, replaced}
use rust_poker.Table.Seats.{remove_player}

-- The node `a` out of the ring between `b` and `c`.
pub record Unlinked (s s' : Store) (a b c : Addr) : Type 0 where
  pub next_of_b : (s'.node b).next ≡ some c
  pub prev_of_c : (s'.node c).prev ≡ some b
  pub folded : (s'.node a).player.folded ≡ true
  pub next_of_a : (s'.node a).next ≡ none
  pub prev_of_a : (s'.node a).prev ≡ none
  pub others : (d : Addr) → d ≢ a → (s'.node d).player ≡ (s.node d).player

differ : (a b : ℕ) → a ≢ b → (a == b) ≡ false
differ a b n = ground arith

module _ (s : Store) (a b c : Addr) (next : (s.node a).next ≡ some c)
    (prev : (s.node a).prev ≡ some b) where
  abbrev alone : Store
  alone =
      set_node a
        (record (s.node a) {
          player = record ((s.node a).player) { folded = true };
          next = none;
          prev = none;
        })
        s

  abbrev joined : Store
  joined = set_prev (some c) (some b) (set_next (some b) (some c) alone)

  unlink-joined : unlink a s ≡ joined
  unfolding unlink
  unlink-joined = rw (next, prev)

  pub unlink-Unlinked : a ≢ b → a ≢ c → b ≢ c → Unlinked s (unlink a s) a b c
  unfolding set_node
  unlink-Unlinked nb nc bc = rw (unlink-joined) (record {
    next_of_b = ground arith;
    prev_of_c = ground arith;
    folded = ground arith;
    next_of_a = ground arith;
    prev_of_a = ground arith;
    others = λ d n. ground arith;
  })

  stream-unlink : ((unlink a s).node a).stream ≡ (s.node a).stream
  unfolding set_node
  stream-unlink = rw (unlink-joined) (ground arith)

-- The player `id` at node `a`, between two different other nodes of the ring of active players.
pub record Between {G : Game} (t : Table G) (id : ℕ) (a b c : Addr) : Type 0 where
  pub found : lookup id t.players ≡ some a
  pub next : (t.store.node a).next ≡ some c
  pub prev : (t.store.node a).prev ≡ some b
  pub not_b : a ≢ b
  pub not_c : a ≢ c
  pub apart : b ≢ c

module _ {G : Game} where
  -- A fold of a player between two different other players returns: it takes the player's node out of
  -- the ring of active players and joins its neighbours, changes no other player, moves a turn that
  -- the player had to the neighbour before, leaves the map, the pot and the node's stream as they are,
  -- and answers as a message to that player is sent.
  pub fold-Unlinked :
      (now id : ℕ) (t : Table G) (a b c : Addr)
      → Between t id a b c
      → (u : Table G) × (fold now id t ≡ some (u, player_send id u))
        × Unlinked t.store u.store a b c
        × (u.turn ≡ replaced a (some b) t.turn)
        × (u.players ≡ t.players)
        × (u.pot ≡ t.pot)
        × ((u.store.node a).stream ≡ (t.store.node a).stream)
  unfolding fold Table.mark_turn_started Table.persist_player
  fold-Unlinked now id t a b c w =
      let un = unlink-Unlinked t.store a b c w.next w.prev w.not_b w.not_c w.apart in
      (
        Table.persist_player (record (player_at t a) { folded = true })
            (Table.mark_turn_started now (record t {
              store = unlink a t.store;
              head = replaced a (some c) t.head;
              bettor = replaced a (some b) t.bettor;
              blind = replaced a (some b) t.blind;
              turn = replaced a (some b) t.turn;
            })),
        rw (
          fold,
          w.found,
          w.next,
          w.prev,
          differ b a (λ q. w.not_b (sym q)),
          differ c a (λ q. w.not_c (sym q)),
          differ b c w.apart,
        ),
        un,
        refl,
        refl,
        refl,
        stream-unlink t.store a b c w.next w.prev,
      )

  -- `remove_player` of a player between two different other players, whose stream takes no write,
  -- answers with the failed write and stops after the fold: the player has folded and is still at the
  -- table.
  pub remove_player_unwritable :
      (now id : ℕ) (t : Table G) (a b c : Addr)
      → Between t id a b c
      → (t.store.node a).stream ≡ some (record { writable = false })
      → (u : Table G) × (remove_player now id t ≡ some (u, err write_failed))
        × (lookup id u.players ≡ some a)
        × ((player_at u a).folded ≡ true)
  unfolding remove_player Table.player_send Table.player_send_holding
  remove_player_unwritable now id t a b c w dead =
      let (u, e, un, _, same, _, stream) = fold-Unlinked now id t a b c w in
      let here : lookup id u.players ≡ some a = rw (same) w.found in
      let failed : player_send id u ≡ err write_failed =
        rw (player_send, Table.player_send_holding, here, stream, dead) in
      (u, rw (remove_player, e, failed), here, un.folded)
