-- ===== src/Table/Seats/Laws.antt =====
-- Seating: the rebuilt full ring, and players who are added. Server/src/lib.rs.
use rust_poker.Base.{
  OnSome, ℕ, suc, ◌≤◌, ◌≡◌, ◌≢◌, refl, ap, subst, ◌∙◌, List, [], ◌∷◌, Option, none, some,
  Option-cases, true, Bool-cases, inl, inr, if◌then◌else◌, String, ==_refl, leb, leb→lt, length,
  contains, All, arith,
}
use rust_poker.Game.{Game}
use rust_poker.Player.{Player, PlayerNode, Addr, Stream}
use rust_poker.Store.{Store, set_node, alloc}
use rust_poker.Table
use rust_poker.Table.{
  Table, Players, Result, err, mutex_poisoned, addresses, lookup, max_players_per_table, player_at,
}
use rust_poker.Table.Money.{Distinct}
use rust_poker.Table.Seats.{
  last_of, set_full, link_nodes, link_ring, still_present, rebuild_full_ring, seat,
  add_player_with_optional_stream,
}

-- From `a` on, each node is linked to the one before it and the one after it, and the last one to
-- `first`.
abbrev pub Linked : Store → Addr → Addr → Addr → List Addr → Type 0
Linked s first before a [] = ((s.node a).nextf ≡ some first) × ((s.node a).prevf ≡ some before)
Linked s first before a (b ∷ bs) =
    (((s.node a).nextf ≡ some b) × ((s.node a).prevf ≡ some before)) × Linked s first a b bs

set_full-other :
    (a c : Addr) (n p : Option Addr) (s : Store) → a ≢ c → (set_full a n p s).node c ≡ s.node c
unfolding set_full set_node
set_full-other a c n p s d = ground arith

link_nodes-other :
    (first before a : Addr) (bs : List Addr) (s : Store) (c : Addr)
    → All (λ x. x ≢ c) (a ∷ bs)
    → (link_nodes first before a bs s).node c ≡ s.node c
unfolding link_nodes
link_nodes-other first before a [] s c h = set_full-other a c _ _ s h.0
link_nodes-other first before a (b ∷ bs) s c h =
    link_nodes-other first a b bs _ c h.1 ∙ set_full-other a c _ _ s h.0

set_full-here :
    (a : Addr) (n p : Option Addr) (s : Store)
    → (((set_full a n p s).node a).nextf ≡ n) × (((set_full a n p s).node a).prevf ≡ p)
unfolding set_full set_node
set_full-here a n p s = (rw (==_refl a), rw (==_refl a))

link_nodes-Linked :
    (first before a : Addr) (bs : List Addr) (s : Store)
    → Distinct (a ∷ bs)
    → Linked (link_nodes first before a bs s) first before a bs
unfolding link_nodes
link_nodes-Linked first before a [] s d = set_full-here a _ _ s
link_nodes-Linked first before a (b ∷ bs) s d =
    let same = link_nodes-other first a b bs (set_full a (some b) (some before) s) a d.0 in
    let here = set_full-here a (some b) (some before) s in
    (
      (ap (λ n. n.nextf) same ∙ here.0, ap (λ n. n.prevf) same ∙ here.1),
      link_nodes-Linked first a b bs (set_full a (some b) (some before) s) d.1,
    )

-- A pointer to somebody at the table.
abbrev pub PointsAmong : List Addr → Option Addr → Type 0
PointsAmong nodes o = (a : Addr) × (o ≡ some a) × (contains nodes a ≡ true)

kept-PointsAmong :
    (nodes : List Addr) (o other : Option Addr)
    → PointsAmong nodes other
    → PointsAmong nodes (if still_present nodes o then o else other)
kept-PointsAmong nodes none other p = p
kept-PointsAmong nodes (some a) other p = elim (Bool-cases (contains nodes a)) [
  | inl c ↦ rw (c) (a, refl, c)
  | inr c ↦ rw (c) p
]

-- A property of the result, if there is one.
abbrev new_node : Player → Option Stream → PlayerNode
new_node p stream = record {
  player = p;
  stream = stream;
  nextf = none;
  prevf = none;
  next = none;
  prev = none;
}

module _ {G : Game} where
  wallet_kept :
      (t : Table G) (a : Addr) (name : String) (stream : Option Stream) (b : Addr)
      → ((set_node a
            (record (t.store.node a) {
              player = record ((t.store.node a).player) { name = name };
              stream = stream;
            })
            t.store).node
          b).player.wallet
        ≡ (player_at t b).wallet
  unfolding set_node
  wallet_kept t a name stream b = ground arith

  -- When there are players, with distinct nodes, the rebuilt full ring links each of them to the
  -- neighbours in the order of the map, the last to the first, and the head and the blind are players
  -- of the table.
  pub rebuild_full_ring-Linked :
      (t : Table G) (a : Addr) (rest : List Addr)
      → addresses t.players ≡ a ∷ rest
      → Distinct (a ∷ rest)
      → Linked (rebuild_full_ring t).store a (last_of a rest) a rest
        × PointsAmong (a ∷ rest) (rebuild_full_ring t).head
        × PointsAmong (a ∷ rest) (rebuild_full_ring t).blind
  unfolding rebuild_full_ring link_ring
  rebuild_full_ring-Linked t a rest e d =
      let first : PointsAmong (a ∷ rest) (some a) = (a, refl, rw (==_refl a)) in
      let head = kept-PointsAmong (a ∷ rest) t.head (some a) first in
      rw (rebuild_full_ring, e)
        (
          link_nodes-Linked a (last_of a rest) a rest t.store d,
          head,
          kept-PointsAmong (a ∷ rest) t.blind _ head,
        )

  module _ (insert : ℕ → Addr → Players → Players) where
    -- Adding a player whose id is at the table is always answered with the error of a poisoned mutex,
    -- though the name is set: the players and all wallets stay as they are.
    pub add_player_again :
        (p : Player) (stream : Option Stream) (t : Table G) (a : Addr)
        → lookup p.id t.players ≡ some a
        → (t' : Table G) × (add_player_with_optional_stream insert p stream t
            ≡ some (t', err mutex_poisoned))
          × (t'.players ≡ t.players)
          × ((player_at t' a).name ≡ p.name)
          × ((b : Addr) → (player_at t' b).wallet ≡ (player_at t b).wallet)
    unfolding add_player_with_optional_stream set_node Table.player_send_holding
    add_player_again p stream t a e =
        let n = t.store.node a in
        let n' = record n { player = record (n.player) { name = p.name }; stream = stream } in
        (
          record t { store = set_node a n' t.store },
          rw (add_player_with_optional_stream, e, Table.player_send_holding, e, ==_refl a),
          refl,
          rw (player_at, ==_refl a),
          λ b. wallet_kept t a p.name stream b,
        )

    seat-players : (a : Addr) (t : Table G) → OnSome (λ t'. t'.players ≡ t.players) (seat a t)
    unfolding seat
    seat-players a t = elim (Option-cases t.head) [
      | inl e ↦ rw (seat, e) refl
      | inr (head, e) ↦ elim (Option-cases (t.store.node head).prevf) [
        | inl f ↦ rw (seat, e, f) tt
        | inr (tail, f) ↦ rw (seat, e, f) refl
      ]
    ]

    seat-players_of : (a : Addr) (t t' : Table G) → seat a t ≡ some t' → t'.players ≡ t.players
    seat-players_of a t t' e = subst (OnSome (λ u. u.players ≡ t.players)) e (seat-players a t)

    add_player_sizes :
        ((id : ℕ) (a : Addr) (m : Players) → length (insert id a m) ≤ suc (length m))
        → (p : Player) (stream : Option Stream) (t : Table G)
        → length t.players ≤ max_players_per_table
        → OnSome
            (λ r. length r.0.players ≤ max_players_per_table)
            (add_player_with_optional_stream insert p stream t)
    unfolding add_player_with_optional_stream alloc
    add_player_sizes grow p stream t h = elim (Option-cases (lookup p.id t.players)) [
      | inr (a, e) ↦ rw (add_player_with_optional_stream, e) h
      | inl e ↦ elim (Bool-cases (leb max_players_per_table (length t.players))) [
        | inl c ↦ rw (add_player_with_optional_stream, e, c) h
        | inr c ↦
            let (a, s) = alloc (new_node p stream) t.store in
            elim (Option-cases (seat a (record t { store = s }))) [
              | inl f ↦ rw (add_player_with_optional_stream, e, c, f) tt
              | inr (u, f) ↦
                  let same = seat-players_of a (record t { store = s }) u f in
                  rw (add_player_with_optional_stream, e, c, f, same)
                    (omega (
                      arith,
                      grow p.id a t.players,
                      leb→lt max_players_per_table (length t.players) c,
                    ))
            ]
      ]
    ]

    -- A table of at most five players has at most five after an attempt to add one, if the map grows
    -- by at most one entry with each insertion.
    pub add_player_bound :
        ((id : ℕ) (a : Addr) (m : Players) → length (insert id a m) ≤ suc (length m))
        → (p : Player) (stream : Option Stream) (t t' : Table G) (r : Result)
        → length t.players ≤ max_players_per_table
        → add_player_with_optional_stream insert p stream t ≡ some (t', r)
        → length t'.players ≤ max_players_per_table
    add_player_bound grow p stream t t' r h e =
        subst (OnSome (λ r. length r.0.players ≤ max_players_per_table)) e
          (add_player_sizes grow p stream t h)
