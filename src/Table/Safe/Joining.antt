-- ===== src/Table/Safe/Joining.antt =====
-- The invariant across `add_player_with_optional_stream` of Server/src/lib.rs.
use mathlib.Core.List.{Permᴰ}
use mathlib.Core.List.Permᴰ.{nil, cons, swap, trans}
use rust_poker.Base.{
  ℕ, ◌+◌, ◌^◌, ◌<◌, ◌≡◌, ◌≢◌, refl, sym, ap, subst, ◌∙◌, [], ◌∷◌, Option, none, some, Option-cases,
  OnSome, Bool-cases, leb, length, inl, inr, All, All-imp, ==_refl, arith,
}
use rust_poker.Game.{Game}
use rust_poker.Player.{Player, PlayerNode, Addr, Stream}
use rust_poker.Store.{Store, set_node, alloc}
use rust_poker.Table.{Table, Players, addresses, lookup, max_players_per_table}
use rust_poker.Table.Bets.Covered.{stakes}
use rust_poker.Table.Bets.Laws.{chips}
use rust_poker.Table.Money.{Distinct, funds}
use rust_poker.Table.Pots.Excess.{excess}
use rust_poker.Table.Safe.{Safe, SafeWithin, Safe-same}
use rust_poker.Table.Same.{
  SameMoney, SameMoney_trans, set_node-SameMoney, set_nextf-SameMoney, set_prevf-SameMoney,
  funds-SameMoney, bets-SameMoney,
}
use rust_poker.Table.Seats.{seat, add_player_with_optional_stream}

funds-Permᴰ : (s : Store) {m m' : Players} → Permᴰ m m' → funds s m ≡ funds s m'
funds-Permᴰ s nil = refl
funds-Permᴰ s (cons e p) =
    omega (arith, ap (λ (x : ℕ × Addr). (s.node x.1).player.wallet) e, funds-Permᴰ s p)
funds-Permᴰ s (swap e f) = omega (
  arith,
  ap (λ (x : ℕ × Addr). (s.node x.1).player.wallet) e,
  ap (λ (x : ℕ × Addr). (s.node x.1).player.wallet) f,
)
funds-Permᴰ s (trans p q) = funds-Permᴰ s p ∙ funds-Permᴰ s q

stakes-Permᴰ : (s : Store) {m m' : Players} → Permᴰ m m' → stakes s m ≡ stakes s m'
stakes-Permᴰ s nil = refl
stakes-Permᴰ s (cons e p) =
    omega (arith, ap (λ (x : ℕ × Addr). (s.node x.1).player.bet) e, stakes-Permᴰ s p)
stakes-Permᴰ s (swap e f) = omega (
  arith,
  ap (λ (x : ℕ × Addr). (s.node x.1).player.bet) e,
  ap (λ (x : ℕ × Addr). (s.node x.1).player.bet) f,
)
stakes-Permᴰ s (trans p q) = stakes-Permᴰ s p ∙ stakes-Permᴰ s q

All-Permᴰ :
    (P : Addr → Type 0) {m m' : Players} → Permᴰ m m' → All P (addresses m') → All P (addresses m)
All-Permᴰ P nil h = tt
All-Permᴰ P (cons e p) h = (subst (λ (x : ℕ × Addr). P x.1) (sym e) h.0, All-Permᴰ P p h.1)
All-Permᴰ P (swap e f) h = (
  subst (λ (x : ℕ × Addr). P x.1) (sym e) h.1.0,
  (subst (λ (x : ℕ × Addr). P x.1) (sym f) h.0, h.1.1),
)
All-Permᴰ P (trans p q) h = All-Permᴰ P p (All-Permᴰ P q h)

Distinct-Permᴰ : {m m' : Players} → Permᴰ m m' → Distinct (addresses m') → Distinct (addresses m)
Distinct-Permᴰ nil h = tt
Distinct-Permᴰ {m = x ∷ m} {m' = y ∷ m'} (cons e p) h = (
  subst (λ (z : ℕ × Addr). All (λ b. b ≢ z.1) (addresses m)) (sym e)
      (All-Permᴰ (λ b. b ≢ y.1) p h.0),
  Distinct-Permᴰ p h.1,
)
Distinct-Permᴰ {m = x ∷ y ∷ m} {m' = x' ∷ y' ∷ m'} (swap e f) h =
    let swapped : Distinct (y'.1 ∷ x'.1 ∷ addresses m) =
      ((λ q. h.0.0 (sym q), h.1.0), (h.0.1, h.1.1)) in
    subst (λ (z : ℕ × Addr). Distinct (z.1 ∷ y.1 ∷ addresses m)) (sym e)
      (subst (λ (z : ℕ × Addr). Distinct (y'.1 ∷ z.1 ∷ addresses m)) (sym f) swapped)
Distinct-Permᴰ (trans p q) h = Distinct-Permᴰ p (Distinct-Permᴰ q h)

-- What a hash map's insertion of a new key does: the old entries and the new one, in some order.
abbrev pub Inserts : (ℕ → Addr → Players → Players) → Type 0
Inserts insert =
    (id : ℕ) (a : Addr) (m : Players) → lookup id m ≡ none → Permᴰ (insert id a m) ((id, a) ∷ m)

-- A new node does not touch those before it.
funds-alloc :
    (n : PlayerNode) (s : Store) (m : Players)
    → All (λ a. a < s.fresh) (addresses m)
    → funds (alloc n s).1 m ≡ funds s m
unfolding alloc
funds-alloc n s [] h = refl
funds-alloc n s ((k, a) ∷ m) h = ground (arith, h.0, funds-alloc n s m h.1)

stakes-alloc :
    (n : PlayerNode) (s : Store) (m : Players)
    → All (λ a. a < s.fresh) (addresses m)
    → stakes (alloc n s).1 m ≡ stakes s m
unfolding alloc
stakes-alloc n s [] h = refl
stakes-alloc n s ((k, a) ∷ m) h = ground (arith, h.0, stakes-alloc n s m h.1)

below_other : (bound : ℕ) (b : Addr) → b < bound → b ≢ bound
below_other bound b h e = omega (arith, e)

below_next : (bound : ℕ) (b : Addr) → b < bound → b < bound + 1
below_next bound b h = omega arith

abbrev newcomer : Player → Option Stream → PlayerNode
newcomer p stream = record {
  player = p;
  stream = stream;
  nextf = none;
  prevf = none;
  next = none;
  prev = none;
}

module _ {G : Game} where
  -- Where the new node stands, and what else stays.
  record Seated (t u : Table G) : Type 0 where
    players : u.players ≡ t.players
    same : SameMoney t.store u.store
    pot : u.pot ≡ t.pot
    bet : u.bet ≡ t.bet

  seat-Seated : (a : Addr) (t : Table G) → OnSome (Seated t) (seat a t)
  unfolding seat
  seat-Seated a t = elim (Option-cases t.head) [
    | inl e ↦
        rw (seat, e)
          (record {
            players = refl;
            same =
                SameMoney_trans (set_nextf-SameMoney (some a) (some a) t.store)
                  (set_prevf-SameMoney (some a) (some a) _);
            pot = refl;
            bet = refl;
          })
    | inr (head, e) ↦ elim (Option-cases (t.store.node head).prevf) [
      | inl f ↦ rw (seat, e, f) tt
      | inr (tail, f) ↦
          rw (seat, e, f)
            (record {
              players = refl;
              same = SameMoney_trans (set_nextf-SameMoney (some tail) (some a) t.store) (
                  SameMoney_trans (set_prevf-SameMoney (some a) (some tail) _) (
                    SameMoney_trans (set_nextf-SameMoney (some a) (some head) _)
                      (set_prevf-SameMoney (some head) (some a) _)));
              pot = refl;
              bet = refl;
            })
    ]
  ]

  Safe-more : (total more : ℕ) (t : Table G) → Safe total t → SafeWithin (total + more) t
  Safe-more total more t v = (
    record {
      nodes = v.nodes;
      behind = v.behind;
      stake = v.stake;
      whole = refl;
      fits = omega (arith, v.whole, v.fits);
      small = v.small;
    },
    omega (arith, v.whole),
  )

  -- A node at the next free address with its entry in the map.
  joined-Safe :
      (insert : ℕ → Addr → Players → Players) (total : ℕ) (p : Player) (n : PlayerNode)
      (t u : Table G)
      → Inserts insert
      → n.player ≡ p
      → p.bet ≡ 0
      → total + p.wallet < 2 ^ 64
      → lookup p.id t.players ≡ none
      → Safe total t
      → Seated (record t { store = (alloc n t.store).1 }) u
      → SafeWithin (total + p.wallet) (record u { players = insert p.id t.store.fresh u.players })
  unfolding alloc
  joined-Safe insert total p n t u ins is_p no_bet fit missing v s =
      let a = t.store.fresh in
      let s1 = (alloc n t.store).1 in
      let m = insert p.id a u.players in
      let perm : Permᴰ m ((p.id, a) ∷ t.players) =
        subst (λ (k : Players). Permᴰ (insert p.id a k) ((p.id, a) ∷ t.players)) (sym s.players)
          (ins p.id a t.players missing) in
      let own : (s1.node a).player ≡ p = rw (==_refl a) is_p in
      let wallet : (u.store.node a).player.wallet ≡ p.wallet =
        s.same.wallet a ∙ ap (λ (q : Player). q.wallet) own in
      let bet : (u.store.node a).player.bet ≡ 0 =
        s.same.bet a ∙ ap (λ (q : Player). q.bet) own ∙ no_bet in
      let funds_all = funds-Permᴰ u.store perm in
      let stakes_all = stakes-Permᴰ u.store perm in
      let funds_old = funds-SameMoney t.players s.same ∙ funds-alloc n t.store t.players v.behind in
      let stakes_old =
        ap (excess 0) (bets-SameMoney t.players s.same)
        ∙ stakes-alloc n t.store t.players v.behind in
      let whole : chips (record u { players = m }) ≡ total + p.wallet =
        omega (arith, funds_all, funds_old, wallet, s.pot, v.whole) in
      (
        record {
          nodes =
              Distinct-Permᴰ perm (All-imp (below_other a) (addresses t.players) v.behind, v.nodes);
          behind = rw (s.same.fresh) (
              All-Permᴰ (λ b. b < a + 1) perm
                (omega arith, All-imp (below_next a) (addresses t.players) v.behind));
          stake = omega (arith, stakes_all, stakes_old, bet, s.pot, v.stake);
          whole = refl;
          fits = omega (arith, whole, fit);
          small = rw (s.bet) v.small;
        },
        omega (arith, whole),
      )

  -- Adding a player, whatever its outcome, keeps the invariant, and brings no more chips than the
  -- player's wallet.
  pub add_player-Safe :
      (insert : ℕ → Addr → Players → Players) (total : ℕ) (p : Player) (stream : Option Stream)
      (t : Table G)
      → Inserts insert
      → p.bet ≡ 0
      → total + p.wallet < 2 ^ 64
      → Safe total t
      → OnSome
          (λ r. SafeWithin (total + p.wallet) r.0)
          (add_player_with_optional_stream insert p stream t)
  unfolding add_player_with_optional_stream
  add_player-Safe insert total p stream t ins no_bet fit v =
      elim (Option-cases (lookup p.id t.players)) [
        | inr (a, e) ↦
            let n = t.store.node a in
            let n' = record n { player = record (n.player) { name = p.name }; stream = stream } in
            let u : Table G = record t { store = set_node a n' t.store } in
            let w : Safe total u =
              Safe-same t u refl (set_node-SameMoney a n' t.store refl refl) refl refl v in
            rw (add_player_with_optional_stream, e) (Safe-more total p.wallet u w)
        | inl e ↦ elim (Bool-cases (leb max_players_per_table (length t.players))) [
          | inl c ↦ rw (add_player_with_optional_stream, e, c) (Safe-more total p.wallet t v)
          | inr c ↦
              let n = newcomer p stream in
              let begun : Table G = record t { store = (alloc n t.store).1 } in
              let s = seat-Seated (alloc n t.store).0 begun in
              elim (Option-cases (seat (alloc n t.store).0 begun)) [
                | inl f ↦ rw (add_player_with_optional_stream, e, c, f) tt
                | inr (u, f) ↦
                    rw (add_player_with_optional_stream, e, c, f)
                      (joined-Safe insert total p n t u ins refl no_bet fit e v
                        (subst (OnSome (Seated begun)) f s))
              ]
        ]
      ]
