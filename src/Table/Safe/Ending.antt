-- ===== src/Table/Safe/Ending.antt =====
-- The invariant across `end_game` and `fold` of Server/src/lib.rs.
use rust_poker.Base.{
  ℕ, ◌≤◌, ◌≡◌, refl, ◌∙◌, List, [], ◌∷◌, some, Option-cases, OnSome, Bool, if◌then◌else◌, true,
  false, Bool-cases, ◌||◌, ltb, inl, inr, All, is_empty, arith,
}
use rust_poker.Game.{Game}
use rust_poker.Player
use rust_poker.Player.{Addr}
use rust_poker.Store.{Store, set_node, set_player, points_to}
use rust_poker.Table.{
  Table, Players, addresses, lookup, player_at, mark_turn_started, persist_player, trigger_save,
  add64, sub64, mul64,
}
use rust_poker.Table.Bets.Covered.{stakes}
use rust_poker.Table.Bets.Laws.{chips}
use rust_poker.Table.Finish.{
  cleared, clear_players, replaced, settle, show_all, showdown_entries, end_game, fold, unlink,
  same_node,
}
use rust_poker.Table.Finish.Chips.{clear_players-players, end_game-chips, is_empty→≢}
use rust_poker.Table.Pots.{
  pay, pay_levels, pay_rest, pay_showdown_pots, level_winner, levels, contributors, unfolded,
}
use rust_poker.Table.Pots.Laws.{FindsWinner}
use rust_poker.Table.Pots.Seated.{IsSeated, unfolded-IsSeated}
use rust_poker.Table.Safe.{Safe, Safe-same}
use rust_poker.Table.Same.{unlink-SameMoney, SameMoney_refl}

abbrev HasNoBet : Store → Addr → Type 0
HasNoBet s a = (s.node a).player.bet ≡ 0

stakes-none : (s : Store) (m : Players) → All (HasNoBet s) (addresses m) → stakes s m ≡ 0
stakes-none s [] h = refl
stakes-none s ((id, a) ∷ m) h = omega (arith, h.0, stakes-none s m h.1)

pay-fresh : (id amount : ℕ) (m : Players) (s : Store) → (pay id amount m s).fresh ≡ s.fresh
unfolding pay set_player
pay-fresh id amount m s = ground arith

module _ (G : Game) (g : G.State) (m : Players) where
  pay_levels-fresh :
      (previous paid : ℕ) (s : Store) (ls : List ℕ)
      → (pay_levels G g m previous paid s ls).1.fresh ≡ s.fresh
  unfolding pay_levels
  pay_levels-fresh previous paid s [] = refl
  pay_levels-fresh previous paid s (level ∷ rest) =
      elim (Option-cases (level_winner G g m level s)) [
        | inl e ↦ rw (pay_levels, e) (pay_levels-fresh level paid s rest)
        | inr (w, e) ↦
            let pot = mul64 (sub64 level previous) (contributors level s m) in
            rw (pay_levels, e)
              (pay_levels-fresh level (add64 paid pot) (pay w.0 pot m s) rest
                ∙ pay-fresh w.0 pot m s)
      ]

  pay_rest-fresh : (pot paid : ℕ) (s : Store) → (pay_rest G g m pot paid s).fresh ≡ s.fresh
  unfolding pay_rest
  pay_rest-fresh pot paid s = elim (Bool-cases (ltb paid pot)) [
    | inr c ↦ rw (pay_rest, c) refl
    | inl c ↦ elim (Option-cases (G.determine_winner g (unfolded G g m s m))) [
      | inl e ↦ rw (pay_rest, c, e) refl
      | inr (w, e) ↦ rw (pay_rest, c, e) (pay-fresh w (sub64 pot paid) m s)
    ]
  ]

module _ {G : Game} where
  clear_players-stays :
      (n : Players) (t : Table G) (b : Addr)
      → HasNoBet t.store b
      → HasNoBet (clear_players n t).store b
  unfolding clear_players cleared persist_player Player.reset set_node
  clear_players-stays [] t b h = h
  clear_players-stays ((id, a) ∷ n) t b h = clear_players-stays n _ b (ground (arith, h))

  clear_players-HasNoBet :
      (n : Players) (t : Table G) → All (HasNoBet (clear_players n t).store) (addresses n)
  unfolding clear_players cleared persist_player Player.reset set_node
  clear_players-HasNoBet [] t = tt
  clear_players-HasNoBet ((id, a) ∷ n) t =
      (clear_players-stays n _ a (ground arith), clear_players-HasNoBet n _)

  clear_players-fresh :
      (n : Players) (t : Table G) → (clear_players n t).store.fresh ≡ t.store.fresh
  unfolding clear_players persist_player set_node
  clear_players-fresh [] t = refl
  clear_players-fresh ((id, a) ∷ n) t = clear_players-fresh n _

  pay_showdown_pots-fresh : (t : Table G) → (pay_showdown_pots t).store.fresh ≡ t.store.fresh
  unfolding pay_showdown_pots
  pay_showdown_pots-fresh t =
      let r = pay_levels G t.game t.players 0 0 t.store (levels t.store t.players) in
      pay_rest-fresh G t.game t.players t.pot r.0 r.1
      ∙ pay_levels-fresh G t.game t.players 0 0 t.store (levels t.store t.players)

  -- What `settle` leaves: the players, no bets, and the table's bet.
  record Settled (t u : Table G) : Type 0 where
    players : u.players ≡ t.players
    fresh : u.store.fresh ≡ t.store.fresh
    stake : stakes u.store u.players ≤ u.pot
    bet : u.bet ≡ t.bet

  clear_players-bet : (n : Players) (t : Table G) → (clear_players n t).bet ≡ t.bet
  unfolding clear_players persist_player
  clear_players-bet [] t = refl
  clear_players-bet ((id, a) ∷ n) t = clear_players-bet n _

  settle-Settled :
      (winner : ℕ) (t : Table G) → IsSeated winner t.players → Settled t (settle winner t)
  unfolding settle pay_showdown_pots trigger_save
  settle-Settled winner t (a, e) =
      let paid = pay_showdown_pots t in
      let players = clear_players-players paid.players paid in
      rw (settle, e)
        (record {
          players = players;
          fresh = clear_players-fresh paid.players paid ∙ pay_showdown_pots-fresh t;
          stake = rw (players) (
              omega (
                arith,
                stakes-none (clear_players paid.players paid).store paid.players
                    (clear_players-HasNoBet paid.players paid),
              ));
          bet = clear_players-bet paid.players paid;
        })

  Settled-Safe :
      {total : ℕ} (t u : Table G) → Safe total t → Settled t u → chips u ≡ chips t → Safe total u
  Settled-Safe t u v s c = record {
    nodes = rw (s.players) v.nodes;
    behind = rw (s.players, s.fresh) v.behind;
    stake = s.stake;
    whole = c ∙ v.whole;
    fits = v.fits;
    small = rw (s.bet) v.small;
  }

  end_game-Settled :
      (t : Table G) → FindsWinner G → stakes t.store t.players ≤ t.pot → Settled t (end_game t)
  unfolding end_game
  end_game-Settled t find covered =
      let hands = unfolded G t.game t.players t.store t.players in
      elim (Bool-cases (is_empty hands)) [
        | inl c ↦
            rw (end_game, c) (record { players = refl; fresh = refl; stake = covered; bet = refl })
        | inr c ↦
            let (w, among, e) = find t.game hands (is_empty→≢ hands c) in
            let seated = unfolded-IsSeated G t.game t.players t.store w t.players among in
            let t' : Table G = record t {
              showdown =
                  some
                    (record { winner = w.0; players = show_all [] (showdown_entries t t.players) });
              next_game_players = [];
            } in
            let s = settle-Settled w.0 t' seated in
            rw (end_game, c, e)
              (record { players = s.players; fresh = s.fresh; stake = s.stake; bet = s.bet })
      ]

  module _ (find : FindsWinner G) {total : ℕ} where
    pub end_game-Safe : (t : Table G) → Safe total t → Safe total (end_game t)
    end_game-Safe t v =
        Settled-Safe t (end_game t) v (end_game-Settled t find v.stake)
          (end_game-chips t find v.nodes v.stake (rw (v.whole) v.fits))

    -- The table after the node has been taken out of the ring.
    fold_end :
        (t : Table G) (b : Bool) (u : Table G)
        → Safe total u
        → Safe total (if b then end_game u else u)
    fold_end t true u v = end_game-Safe u v
    fold_end t false u v = v

    pub fold-Safe :
        (now id : ℕ) (t : Table G) → Safe total t → OnSome (λ r. Safe total r.0) (fold now id t)
    unfolding fold mark_turn_started persist_player
    fold-Safe now id t v = elim (Option-cases (lookup id t.players)) [
      | inl e ↦ rw (fold, e) v
      | inr (a, e) ↦
          let prev = (t.store.node a).prev in
          let next = (t.store.node a).next in
          let out : Table G = mark_turn_started now (record t {
            store = unlink a t.store;
            head = replaced a next t.head;
            bettor = replaced a prev t.bettor;
            blind = replaced a prev t.blind;
            turn = replaced a prev t.turn;
          }) in
          let w : Safe total out = Safe-same t out refl (unlink-SameMoney a t.store) refl refl v in
          let ended : Table G = if same_node prev next then end_game out else out in
          let done : Safe total ended = fold_end t (same_node prev next) out w in
          elim (Bool-cases (points_to a prev || points_to a next)) [
            | inl c ↦ rw (fold, e, c) tt
            | inr c ↦
                rw (fold, e, c)
                  (Safe-same ended (persist_player (record (player_at t a) { folded = true }) ended)
                    refl (SameMoney_refl ended.store) refl refl done)
          ]
    ]
