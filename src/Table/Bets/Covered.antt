-- ===== src/Table/Bets/Covered.antt =====
-- The bets against the pot across `raise`, `all_in` and `check` of Server/src/lib.rs.
use rust_poker.Base.{
  ℕ, ◌+◌, ◌^◌, ◌≤◌, ◌<◌, ◌≡◌, ◌≢◌, refl, sym, ap, subst, ◌∙◌, [], ◌∷◌, some, Option-cases, true,
  false, Bool-cases, if◌then◌else◌, ◌==◌, ==_iff, ltb, ltb→le, inl, inr, All, arith,
}
use rust_poker.Game.{Game}
use rust_poker.Player.{Player, Addr}
use rust_poker.Store.{Store, set_player}
use rust_poker.Table.{Table, Players, addresses, lookup, player_at, add64, sub64}
use rust_poker.Table.Bets.{raise, all_in, check}
use rust_poker.Table.Bets.Laws.{chips}
use rust_poker.Table.Money.{
  Distinct, lookup-funds, lookup-All, node-set_player_other, player-set_player, add64_lem,
  some_injective,
}
use rust_poker.Table.Pots.{bets}
use rust_poker.Table.Pots.Excess.{excess}

-- The sum of the bets.
abbrev pub stakes : Store → Players → ℕ
stakes s m = excess 0 (bets s m)

stakes-elsewhere :
    (s : Store) (a : Addr) (p : Player) (m : Players)
    → All (λ y. y ≢ a) (addresses m)
    → stakes (set_player a p s) m ≡ stakes s m
stakes-elsewhere s a p [] h = refl
stakes-elsewhere s a p ((id, b) ∷ m) h =
    rw (node-set_player_other s a p b h.0, stakes-elsewhere s a p m h.1)

-- What the entry of the map says about `lookup`.
found-here :
    (id k : ℕ) (a b : Addr) (m : Players)
    → (k == id) ≡ true
    → lookup id ((k, b) ∷ m) ≡ some a
    → b ≡ a
found-here id k a b m c e = some_injective (sym (ap (λ v. if v then some b else lookup id m) c) ∙ e)

found-later :
    (id k : ℕ) (a b : Addr) (m : Players)
    → (k == id) ≡ false
    → lookup id ((k, b) ∷ m) ≡ some a
    → lookup id m ≡ some a
found-later id k a b m c e = sym (ap (λ v. if v then some b else lookup id m) c) ∙ e

stakes-set_player :
    (s : Store) (a : Addr) (p : Player) (id : ℕ) (m : Players)
    → Distinct (addresses m)
    → lookup id m ≡ some a
    → stakes (set_player a p s) m + (s.node a).player.bet ≡ stakes s m + p.bet
stakes-set_player s a p id [] d e = absurd (ground arith)
stakes-set_player s a p id ((k, b) ∷ m) d e = elim (Bool-cases (k == id)) [
  | inl c ↦
      let same = found-here id k a b m c e in
      let others : All (λ y. y ≢ a) (addresses m) =
        subst (λ x. All (λ y. y ≢ x) (addresses m)) same d.0 in
      rw (same, player-set_player s a p, stakes-elsewhere s a p m others) (omega arith)
  | inr c ↦
      let later = found-later id k a b m c e in
      let n : a ≢ b = lookup-All (λ y. y ≢ b) id m a d.0 later in
      rw (node-set_player_other s a p b (λ q. n (sym q)))
        (omega (arith, stakes-set_player s a p id m d.1 later))
]

lookup-stakes :
    (s : Store) (id : ℕ) (m : Players) (a : Addr)
    → lookup id m ≡ some a
    → (s.node a).player.bet ≤ stakes s m
lookup-stakes s id [] a e = absurd (ground arith)
lookup-stakes s id ((k, b) ∷ m) a e = elim (Bool-cases (k == id)) [
  | inl c ↦ rw (found-here id k a b m c e) (omega arith)
  | inr c ↦ omega (arith, lookup-stakes s id m a (found-later id k a b m c e))
]

module _ {G : Game} where
  -- The pot holds at least the bets, and with all wallets it fits into 64 bits.
  pub record Covered (t : Table G) : Type 0 where
    pub nodes : Distinct (addresses t.players)
    pub stake : stakes t.store t.players ≤ t.pot
    pub total : chips t < 2 ^ 64

  -- A bet that grows with the pot.
  grown :
      (id : ℕ) (a : Addr) (p : Player) (amount : ℕ) (t : Table G)
      → Covered t
      → lookup id t.players ≡ some a
      → amount ≤ (player_at t a).wallet
      → p.bet ≡ (player_at t a).bet + amount
      → stakes (set_player a p t.store) t.players ≤ add64 t.pot amount
  grown id a p amount t v e l b =
      let part = lookup-funds t.store id t.players a e in
      let pot = add64_lem t.pot amount (omega (arith, part, v.total)) in
      omega (arith, pot, v.stake, stakes-set_player t.store a p id t.players v.nodes e, b)

  larger_bet :
      (id : ℕ) (a : Addr) (amount : ℕ) (t : Table G)
      → Covered t
      → lookup id t.players ≡ some a
      → amount ≤ (player_at t a).wallet
      → add64 (player_at t a).bet amount ≡ (player_at t a).bet + amount
  larger_bet id a amount t v e l = add64_lem (player_at t a).bet amount (
      omega (
        arith,
        v.total,
        v.stake,
        lookup-funds t.store id t.players a e,
        lookup-stakes t.store id t.players a e,
      ))

  raise-stakes :
      (id amount : ℕ) (t : Table G)
      → Covered t
      → stakes (raise id amount t).0.store (raise id amount t).0.players ≤ (raise id amount t).0.pot
  unfolding raise
  raise-stakes id amount t v = elim (Bool-cases (amount == 0)) [
    | inl z ↦ rw (raise, z) v.stake
    | inr z ↦ elim (Option-cases (lookup id t.players)) [
      | inl e ↦ rw (raise, z, e) v.stake
      | inr (a, e) ↦ elim (Bool-cases (ltb (player_at t a).wallet amount)) [
        | inl c ↦ rw (raise, z, e, c) v.stake
        | inr c ↦
            let l = ltb→le (player_at t a).wallet amount c in
            rw (raise, z, e, c) (grown id a _ amount t v e l (larger_bet id a amount t v e l))
      ]
    ]
  ]

  all_in-stakes :
      (id : ℕ) (t : Table G)
      → Covered t
      → stakes (all_in id t).0.store (all_in id t).0.players ≤ (all_in id t).0.pot
  unfolding all_in
  all_in-stakes id t v = elim (Option-cases (lookup id t.players)) [
    | inl e ↦ rw (all_in, e) v.stake
    | inr (a, e) ↦
        let amount = (player_at t a).wallet in
        let bet = larger_bet id a amount t v e (omega arith) in
        elim (Bool-cases (amount == 0)) [
          | inl z ↦ rw (all_in, e, z) (omega (arith, v.stake, (==_iff _ _).0 z))
          | inr z ↦ elim (Bool-cases (ltb t.bet (add64 (player_at t a).bet amount))) [
            | inl c ↦ rw (all_in, e, z, c) (grown id a _ amount t v e (omega arith) bet)
            | inr c ↦ rw (all_in, e, z, c) (grown id a _ amount t v e (omega arith) bet)
          ]
        ]
  ]

  called_bet :
      (id : ℕ) (a : Addr) (t : Table G)
      → Covered t
      → lookup id t.players ≡ some a
      → t.bet < 2 ^ 64
      → sub64 t.bet (player_at t a).bet ≤ (player_at t a).wallet
      → t.bet ≡ (player_at t a).bet + sub64 t.bet (player_at t a).bet
  called_bet id a t v e b l = omega (
    arith,
    v.total,
    v.stake,
    l,
    lookup-funds t.store id t.players a e,
    lookup-stakes t.store id t.players a e,
  )

  check-stakes :
      (id : ℕ) (t : Table G)
      → Covered t
      → t.bet < 2 ^ 64
      → stakes (check id t).0.store (check id t).0.players ≤ (check id t).0.pot
  unfolding check
  check-stakes id t v b = elim (Option-cases (lookup id t.players)) [
    | inl e ↦ rw (check, e) v.stake
    | inr (a, e) ↦
        let diff = sub64 t.bet (player_at t a).bet in
        elim (Bool-cases ((player_at t a).bet == t.bet)) [
          | inl z ↦ rw (check, e, z) v.stake
          | inr z ↦ elim (Bool-cases (ltb (player_at t a).wallet diff)) [
            | inl c ↦ rw (check, e, z, c) v.stake
            | inr c ↦
                let l = ltb→le (player_at t a).wallet diff c in
                rw (check, e, z, c) (grown id a _ diff t v e l (called_bet id a t v e b l))
          ]
        ]
  ]

  -- Betting keeps the bets covered: after a raise, an all-in or a check, whatever its outcome, the sum
  -- of the bets is at most the pot, if it was before, the players' nodes are distinct, and all chips
  -- and the table's bet fit into 64 bits.
  pub betting-Covered :
      (id amount : ℕ) (t : Table G)
      → Covered t
      → t.bet < 2 ^ 64
      → (stakes (raise id amount t).0.store (raise id amount t).0.players
          ≤ (raise id amount t).0.pot)
        × (stakes (all_in id t).0.store (all_in id t).0.players ≤ (all_in id t).0.pot)
        × (stakes (check id t).0.store (check id t).0.players ≤ (check id t).0.pot)
  betting-Covered id amount t v b =
      (raise-stakes id amount t v, all_in-stakes id t v, check-stakes id t v b)
