-- ===== src/Table/Seats/Gone.antt =====
-- The map of players across `remove_player` of Server/src/lib.rs.
use rust_poker.Base.{
  ℕ, ◌≡◌, ◌≢◌, refl, sym, subst, List, [], ◌∷◌, Option, none, some, Option-cases, Bool-cases, inl,
  inr, ◌||◌, ◌==◌, ==_iff, is_empty, arith,
}
use rust_poker.Game.{Game}
use rust_poker.Player.{Addr}
use rust_poker.Store.{points_to}
use rust_poker.Table
use rust_poker.Table.{
  Table, Players, Showdown, Result, Reply, removed, ok, err, addresses, lookup, remove_key,
  player_at, mark_turn_started, persist_player, delete_player, trigger_save,
}
use rust_poker.Table.Finish.{settle, end_game, fold, same_node}
use rust_poker.Table.Finish.Chips.{clear_players-players}
use rust_poker.Table.Pots.{pay_showdown_pots, unfolded}
use rust_poker.Table.Seats.{rebuild_full_ring, leave, remove_player}

-- The ids of the map are different.
abbrev pub DifferentIds : Players → Type 0
DifferentIds [] = Unit
DifferentIds ((id, _) ∷ m) = (lookup id m ≡ none) × DifferentIds m

lookup-remove_key : (id : ℕ) (m : Players) → DifferentIds m → lookup id (remove_key id m) ≡ none
unfolding remove_key
lookup-remove_key id [] d = refl
lookup-remove_key id ((k, a) ∷ m) d = elim (Bool-cases (k == id)) [
  | inl c ↦ rw (remove_key, c) (subst (λ i. lookup i m ≡ none) ((==_iff k id).0 c) d.0)
  | inr c ↦ rw (remove_key, c, c) (lookup-remove_key id m d.1)
]

pub lookup-remove_key_other :
    (id k : ℕ) (m : Players) → k ≢ id → lookup k (remove_key id m) ≡ lookup k m
unfolding remove_key
lookup-remove_key_other id k [] n = refl
lookup-remove_key_other id k ((j, a) ∷ m) n = ground (arith, lookup-remove_key_other id k m n)

module _ {G : Game} where
  settle-players : (winner : ℕ) (t : Table G) → (settle winner t).players ≡ t.players
  unfolding settle pay_showdown_pots trigger_save
  settle-players winner t = elim (Option-cases (lookup winner t.players)) [
    | inl e ↦ rw (settle, e)
    | inr (a, e) ↦ rw (settle, e) (clear_players-players t.players (pay_showdown_pots t))
  ]

  pub end_game-players : (t : Table G) → (end_game t).players ≡ t.players
  unfolding end_game
  end_game-players t =
      let hands = unfolded G t.game t.players t.store t.players in
      elim (Bool-cases (is_empty hands)) [
        | inl c ↦ rw (end_game, c)
        | inr c ↦ elim (Option-cases (G.determine_winner t.game hands)) [
          | inl e ↦ rw (end_game, c, e)
          | inr (w, e) ↦ rw (end_game, c, e) (settle-players w _)
        ]
      ]

  pub rebuild_full_ring-players : (t : Table G) → (rebuild_full_ring t).players ≡ t.players
  unfolding rebuild_full_ring Table.reset
  rebuild_full_ring-players t = go (addresses t.players) refl
    where
      go :
          (nodes : List Addr)
          → addresses t.players ≡ nodes
          → (rebuild_full_ring t).players ≡ t.players
      go [] e = rw (rebuild_full_ring, e)
      go (a ∷ rest) e = rw (rebuild_full_ring, e)

  -- The players of the table in a result, if there is one.
  abbrev Keeps : Players → Option (Table G × Result) → Type 0
  Keeps m none = Unit
  Keeps m (some (u, _)) = u.players ≡ m

  fold-players : (now id : ℕ) (t : Table G) → Keeps t.players (fold now id t)
  unfolding fold mark_turn_started persist_player
  fold-players now id t = elim (Option-cases (lookup id t.players)) [
    | inl e ↦ rw (fold, e) refl
    | inr (a, e) ↦
        let prev = (t.store.node a).prev in
        let next = (t.store.node a).next in
        elim (Bool-cases (points_to a prev || points_to a next)) [
          | inl c ↦ rw (fold, e, c) tt
          | inr c ↦ elim (Bool-cases (same_node prev next)) [
            | inl q ↦ rw (fold, e, c, q) (end_game-players _)
            | inr q ↦ rw (fold, e, c, q) refl
          ]
        ]
  ]

  -- What `remove_player` does to the map, where it succeeds.
  abbrev Gone : ℕ → Players → Option (Table G × Result) → Type 0
  Gone id m (some (u, ok _)) =
      (lookup id u.players ≡ none) × ((k : ℕ) → k ≢ id → lookup k u.players ≡ lookup k m)
  Gone id m _ = Unit

  removed-Gone :
      (id : ℕ) (m : Players) (u : Table G)
      → DifferentIds m
      → u.players ≡ remove_key id m
      → Gone id m (some (delete_player id (rebuild_full_ring u), ok removed))
  unfolding delete_player
  removed-Gone id m u d e =
      rw (rebuild_full_ring-players u, e)
        (lookup-remove_key id m d, λ k n. lookup-remove_key_other id k m n)

  leave-Gone :
      (id : ℕ) (t : Table G) → DifferentIds t.players → Gone id t.players (some (leave id t))
  unfolding leave
  leave-Gone id t d = elim (Option-cases (lookup id t.players)) [
    | inl e ↦ rw (leave, e) tt
    | inr (a, e) ↦ rw (leave, e) (removed-Gone id t.players _ d refl)
  ]

  remove_player-cases :
      (now id : ℕ) (t : Table G)
      → DifferentIds t.players
      → Gone id t.players (remove_player now id t)
  unfolding remove_player
  remove_player-cases now id t d = go (fold now id t) (fold-players now id t)
    where
      go :
          (o : Option (Table G × Result))
          → Keeps t.players o
          → Gone id t.players (elim o as (λ _. Option (Table G × Result)) [
            | none ↦ none
            | some (t', ok _) ↦ some (leave id t')
            | some (t', err e) ↦ some (t', err e)
          ])
      go none same = tt
      go (some (u, ok _)) same =
          subst (λ m. Gone id m (some (leave id u))) same
            (leave-Gone id u (subst DifferentIds (sym same) d))
      go (some (u, err e)) same = tt

  -- Where `remove_player` succeeds and the ids of the map are different, the player is gone from the
  -- map, and every other player is where it was.
  pub remove_player-Gone :
      (now id : ℕ) (t u : Table G) (reply : Reply)
      → DifferentIds t.players
      → remove_player now id t ≡ some (u, ok reply)
      → (lookup id u.players ≡ none) × ((k : ℕ) → k ≢ id → lookup k u.players ≡ lookup k t.players)
  remove_player-Gone now id t u reply d e =
      subst (Gone id t.players) e (remove_player-cases now id t d)
