-- ===== src/Table/Safe/Leaving.antt =====
-- The invariant across `remove_player` of Server/src/lib.rs.
use rust_poker.Base.{
  ℕ, ◌+◌, ◌≤◌, ◌<◌, ◌≡◌, ◌≢◌, refl, sym, ap, subst, ◌∙◌, List, [], ◌∷◌, Option, none, some,
  Option-cases, OnSome, Bool-cases, if◌then◌else◌, ◌==◌, inl, inr, All, arith,
}
use rust_poker.Game.{Game}
use rust_poker.Player.{Addr}
use rust_poker.Store.{Store, set_node, points_to}
use rust_poker.Table.{
  Table, Players, Result, ok, err, addresses, lookup, remove_key, player_at, delete_player,
}
use rust_poker.Table
use rust_poker.Table.Bets.Covered.{stakes}
use rust_poker.Table.Bets.Laws.{chips}
use rust_poker.Table.Finish.{fold}
use rust_poker.Table.Money.{Distinct, funds}
use rust_poker.Table.Pots.Excess.{excess}
use rust_poker.Table.Pots.Laws.{FindsWinner}
use rust_poker.Table.Safe.{Safe, SafeWithin}
use rust_poker.Table.Safe.Ending.{fold-Safe}
use rust_poker.Table.Safe.Start.{
  rebuild_full_ring-store, rebuild_full_ring-pot, rebuild_full_ring-bet,
}
use rust_poker.Table.Same.{
  SameMoney, SameMoney_trans, set_node-SameMoney, set_nextf-SameMoney, set_prevf-SameMoney,
  funds-SameMoney, bets-SameMoney,
}
use rust_poker.Table.Seats.{set_nextf, set_prevf, rebuild_full_ring, leave, remove_player}
use rust_poker.Table.Seats.Gone.{rebuild_full_ring-players}

remove_key-All :
    (P : Addr → Type 0) (id : ℕ) (m : Players)
    → All P (addresses m)
    → All P (addresses (remove_key id m))
unfolding remove_key
remove_key-All P id [] h = tt
remove_key-All P id ((k, a) ∷ m) h = elim (Bool-cases (k == id)) [
  | inl c ↦ rw (remove_key, c) h.1
  | inr c ↦ rw (remove_key, c) (h.0, remove_key-All P id m h.1)
]

remove_key-Distinct :
    (id : ℕ) (m : Players) → Distinct (addresses m) → Distinct (addresses (remove_key id m))
unfolding remove_key
remove_key-Distinct id [] h = tt
remove_key-Distinct id ((k, a) ∷ m) h = elim (Bool-cases (k == id)) [
  | inl c ↦ rw (remove_key, c) h.1
  | inr c ↦ rw (remove_key, c) (remove_key-All (λ y. y ≢ a) id m h.0, remove_key-Distinct id m h.1)
]

stakes-remove_key : (s : Store) (id : ℕ) (m : Players) → stakes s (remove_key id m) ≤ stakes s m
unfolding remove_key
stakes-remove_key s id [] = omega arith
stakes-remove_key s id ((k, a) ∷ m) = ground (arith, stakes-remove_key s id m)

-- What the wallet of the player who leaves takes along.
funds-remove_key :
    (s : Store) (id : ℕ) (m : Players) (a : Addr)
    → lookup id m ≡ some a
    → funds s (remove_key id m) + (s.node a).player.wallet ≡ funds s m
unfolding remove_key
funds-remove_key s id [] a e = absurd (ground (arith, e))
funds-remove_key s id ((k, b) ∷ m) a e = elim (Bool-cases (k == id)) [
  | inl c ↦
      let same : some b ≡ some a = sym (ap (λ v. if v then some b else lookup id m) c) ∙ e in
      let f =
        ap
          (λ (o : Option Addr). elim o as (λ _. ℕ) [ none ↦ 0 | some x ↦ (s.node x).player.wallet ])
          same in
      rw (remove_key, c) (omega (arith, f))
  | inr c ↦
      let later : lookup id m ≡ some a = sym (ap (λ v. if v then some b else lookup id m) c) ∙ e in
      rw (remove_key, c) (omega (arith, funds-remove_key s id m a later))
]

stakes-nobody : (s : Store) (m : Players) → addresses m ≡ [] → stakes s m ≡ 0
stakes-nobody s [] e = refl
stakes-nobody s ((k, a) ∷ m) e = absurd (ground (arith, e))

module _ {G : Game} where
  rebuild_full_ring-stake :
      (t : Table G)
      → stakes t.store t.players ≤ t.pot
      → stakes t.store t.players ≤ (rebuild_full_ring t).pot
  unfolding rebuild_full_ring Table.reset
  rebuild_full_ring-stake t h = go (addresses t.players) refl
    where
      go :
          (nodes : List Addr)
          → addresses t.players ≡ nodes
          → stakes t.store t.players ≤ (rebuild_full_ring t).pot
      go [] e = rw (rebuild_full_ring, e) (omega (arith, stakes-nobody t.store t.players e))
      go (a ∷ rest) e = rw (rebuild_full_ring, e) h

  within :
      (total : ℕ) (t u : Table G)
      → Safe total t
      → Distinct (addresses u.players)
      → All (λ a. a < u.store.fresh) (addresses u.players)
      → stakes u.store u.players ≤ u.pot
      → chips u ≤ chips t
      → u.bet ≤ t.bet
      → SafeWithin total u
  within total t u v d b s c l = (
    record {
      nodes = d;
      behind = b;
      stake = s;
      whole = refl;
      fits = omega (arith, v.fits, v.whole, c);
      small = omega (arith, v.small, l);
    },
    omega (arith, v.whole, c),
  )

  -- The ring rebuilt over some of the players.
  rebuilt-Safe :
      (total id : ℕ) (t t' : Table G)
      → Safe total t
      → t'.players ≡ remove_key id t.players
      → SameMoney t.store t'.store
      → t'.pot ≡ t.pot
      → t'.bet ≡ t.bet
      → funds t.store (remove_key id t.players) ≤ funds t.store t.players
      → SafeWithin total (delete_player id (rebuild_full_ring t'))
  unfolding delete_player
  rebuilt-Safe total id t t' v p m pot bet f =
      let u = rebuild_full_ring t' in
      let players : u.players ≡ remove_key id t.players = rebuild_full_ring-players t' ∙ p in
      let same = SameMoney_trans m (rebuild_full_ring-store t') in
      let money = funds-SameMoney (remove_key id t.players) same in
      let bets_left = ap (excess 0) (bets-SameMoney (remove_key id t.players) same) in
      let less = stakes-remove_key t.store id t.players in
      let before : stakes t'.store t'.players ≤ t'.pot =
        rw (p, ap (excess 0) (bets-SameMoney (remove_key id t.players) m), pot)
          (omega (arith, less, v.stake)) in
      let after = rebuild_full_ring-stake t' before in
      let again = ap (excess 0) (bets-SameMoney t'.players (rebuild_full_ring-store t')) in
      within total t (delete_player id u) v
        (rw (players) (remove_key-Distinct id t.players v.nodes))
        (rw (players, same.fresh) (remove_key-All (λ a. a < t.store.fresh) id t.players v.behind))
        (rw (rebuild_full_ring-players t', again) after)
        (rw (players) (omega (arith, money, f, rebuild_full_ring-pot t', pot)))
        (omega (arith, rebuild_full_ring-bet t', bet))

  leave-Safe : (total id : ℕ) (t : Table G) → Safe total t → SafeWithin total (leave id t).0
  unfolding leave
  leave-Safe total id t v = elim (Option-cases (lookup id t.players)) [
    | inl e ↦
        rw (leave, e) (within total t t v v.nodes v.behind v.stake (omega arith) (omega arith))
    | inr (a, e) ↦
        let n = t.store.node a in
        let s = set_node a (record n { nextf = none; prevf = none }) t.store in
        let s' = set_prevf n.nextf n.prevf (set_nextf n.prevf n.nextf s) in
        let after = if points_to a n.nextf then none else n.nextf in
        let t' : Table G = record t {
          store = s';
          head = if points_to a t.head then after else t.head;
          players = remove_key id t.players;
        } in
        let m : SameMoney t.store s' =
          SameMoney_trans
            (set_node-SameMoney a (record n { nextf = none; prevf = none }) t.store refl refl)
            (SameMoney_trans (set_nextf-SameMoney n.prevf n.nextf s)
              (set_prevf-SameMoney n.nextf n.prevf _)) in
        rw (leave, e)
          (rebuilt-Safe total id t t' v refl m refl refl
            (omega (arith, funds-remove_key t.store id t.players a e)))
  ]

  pub SafeWithin-trans :
      (part total : ℕ) (t : Table G) → part ≤ total → SafeWithin part t → SafeWithin total t
  SafeWithin-trans part total t h v = (v.0, omega (arith, h, v.1))

  pub Safe-SafeWithin : (total : ℕ) (t : Table G) → Safe total t → SafeWithin total t
  Safe-SafeWithin total t v =
      within total t t v v.nodes v.behind v.stake (omega arith) (omega arith)

  -- Removing a player, whatever its outcome, keeps the invariant, and makes no chips.
  pub remove_player-Safe :
      (find : FindsWinner G) (total now id : ℕ) (t : Table G)
      → Safe total t
      → OnSome (λ r. SafeWithin total r.0) (remove_player now id t)
  unfolding remove_player
  remove_player-Safe find total now id t v =
      let f = fold-Safe find now id t v in
      elim (Option-cases (fold now id t)) [
        | inl e ↦ rw (remove_player, e) tt
        | inr ((u, ok r), e) ↦
            rw (remove_player, e) (leave-Safe total id u (subst (OnSome (λ r. Safe total r.0)) e f))
        | inr ((u, err r), e) ↦
            rw (remove_player, e)
              (Safe-SafeWithin total u (subst (OnSome (λ r. Safe total r.0)) e f))
      ]
