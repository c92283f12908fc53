-- ===== src/Table/Bets/Laws.antt =====
-- The chips of a table across `raise`, `all_in` and `check` of Server/src/lib.rs.
use rust_poker.Base.{
  ℕ, ◌+◌, ◌^◌, ◌≤◌, ◌<◌, ◌≡◌, some, Option-cases, Bool-cases, ◌==◌, ltb, ==_iff, ltb→le, inl, inr,
  arith,
}
use rust_poker.Game.{Game}
use rust_poker.Player.{Player, Addr}
use rust_poker.Store.{set_player}
use rust_poker.Table.{Table, addresses, add64, sub64, lookup, player_at}
use rust_poker.Table.Bets.{raise, all_in, check}
use rust_poker.Table.Money.{add64_lem, sub64_lem, Distinct, funds, funds-set_player, lookup-funds}

module _ {G : Game} where
  -- All chips of a table: the wallets and the pot.
  abbrev pub chips : Table G → ℕ
  chips t = funds t.store t.players + t.pot

  -- An amount that moves from a wallet to the pot.
  paid-chips :
      (id : ℕ) (a : Addr) (p : Player) (amount : ℕ) (t : Table G)
      → Distinct (addresses t.players)
      → lookup id t.players ≡ some a
      → chips t < 2 ^ 64
      → amount ≤ (player_at t a).wallet
      → p.wallet + amount ≡ (player_at t a).wallet
      → funds (set_player a p t.store) t.players + add64 t.pot amount ≡ chips t
  paid-chips id a p amount t d e h l w =
      let part = lookup-funds t.store id t.players a e in
      let pot : add64 t.pot amount ≡ t.pot + amount =
        add64_lem t.pot amount (omega (arith, part)) in
      omega (arith, pot, funds-set_player t.store a p id t.players d e, w)

  left-wallet :
      (id : ℕ) (a : Addr) (amount : ℕ) (t : Table G)
      → lookup id t.players ≡ some a
      → chips t < 2 ^ 64
      → amount ≤ (player_at t a).wallet
      → sub64 (player_at t a).wallet amount + amount ≡ (player_at t a).wallet
  left-wallet id a amount t e h l =
      let part = lookup-funds t.store id t.players a e in
      omega (arith, sub64_lem (player_at t a).wallet amount l (omega (arith, part)))

  -- A raise of any amount by any player, whatever its outcome, leaves the sum of all wallets and the
  -- pot as it is, if the players' nodes are distinct and that sum fits into 64 bits.
  pub raise-chips :
      (id amount : ℕ) (t : Table G)
      → Distinct (addresses t.players)
      → chips t < 2 ^ 64
      → chips (raise id amount t).0 ≡ chips t
  unfolding raise
  raise-chips id amount t d h = elim (Bool-cases (amount == 0)) [
    | inl z ↦ rw (z)
    | inr z ↦ elim (Option-cases (lookup id t.players)) [
      | inl e ↦ rw (z, e)
      | inr (a, e) ↦ elim (Bool-cases (ltb (player_at t a).wallet amount)) [
        | inl c ↦ rw (z, e, c)
        | inr c ↦
            let l = ltb→le (player_at t a).wallet amount c in
            rw (z, e, c) (paid-chips id a _ amount t d e h l (left-wallet id a amount t e h l))
      ]
    ]
  ]

  -- Going all in, whatever its outcome, leaves the sum of all wallets and the pot as it is, if the
  -- players' nodes are distinct and that sum fits into 64 bits.
  pub all_in-chips :
      (id : ℕ) (t : Table G)
      → Distinct (addresses t.players)
      → chips t < 2 ^ 64
      → chips (all_in id t).0 ≡ chips t
  unfolding all_in
  all_in-chips id t d h = elim (Option-cases (lookup id t.players)) [
    | inl e ↦ rw (all_in, e)
    | inr (a, e) ↦ elim (Bool-cases ((player_at t a).wallet == 0)) [
      | inl z ↦ rw (all_in, e, z) (omega (arith, (==_iff _ _).0 z))
      | inr z ↦ elim (Bool-cases (ltb t.bet (add64 (player_at t a).bet (player_at t a).wallet))) [
        | inl c ↦
            rw (all_in, e, z, c)
              (paid-chips id a _ (player_at t a).wallet t d e h (omega arith) (omega arith))
        | inr c ↦
            rw (all_in, e, z, c)
              (paid-chips id a _ (player_at t a).wallet t d e h (omega arith) (omega arith))
      ]
    ]
  ]

  -- A check, whatever its outcome, leaves the sum of all wallets and the pot as it is, if the
  -- players' nodes are distinct and that sum fits into 64 bits.
  pub check-chips :
      (id : ℕ) (t : Table G)
      → Distinct (addresses t.players)
      → chips t < 2 ^ 64
      → chips (check id t).0 ≡ chips t
  unfolding check
  check-chips id t d h = elim (Option-cases (lookup id t.players)) [
    | inl e ↦ rw (check, e)
    | inr (a, e) ↦ elim (Bool-cases ((player_at t a).bet == t.bet)) [
      | inl z ↦ rw (check, e, z)
      | inr z ↦ elim (Bool-cases (ltb (player_at t a).wallet (sub64 t.bet (player_at t a).bet))) [
        | inl c ↦ rw (check, e, z, c)
        | inr c ↦
            let diff = sub64 t.bet (player_at t a).bet in
            let l = ltb→le (player_at t a).wallet diff c in
            rw (check, e, z, c) (paid-chips id a _ diff t d e h l (left-wallet id a diff t e h l))
      ]
    ]
  ]
