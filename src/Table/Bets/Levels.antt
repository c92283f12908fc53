-- ===== src/Table/Bets/Levels.antt =====
-- What the bets are after `raise`, `all_in` and `check` of Server/src/lib.rs.
use rust_poker.Base.{
  ℕ, ◌+◌, ◌^◌, ◌≤◌, ◌<◌, ◌≡◌, ◌≢◌, refl, max, some, false, Bool-cases, ◌==◌, ltb, ==_iff, ltb→lt,
  ltb→le, inl, inr, arith,
}
use rust_poker.Game.{Game}
use rust_poker.Player.{Addr}
use rust_poker.Table.{Table, lookup, player_at, add64, sub64}
use rust_poker.Table.Bets.{raise, all_in, check}
use rust_poker.Table.Money.{add64_lem, sub64_lem, player-set_player}

module _ {G : Game} (id : ℕ) (a : Addr) (t : Table G) (found : lookup id t.players ≡ some a) where
  -- A player with enough chips who checks has then bet as much as the table asks for and has paid
  -- the difference out of the wallet; what the table asks for stays. The bet is at most the table's
  -- and the wallet and the table's bet fit into 64 bits.
  check_levels :
      (player_at t a).bet ≤ t.bet
      → t.bet ≤ (player_at t a).bet + (player_at t a).wallet
      → t.bet < 2 ^ 64
      → (player_at t a).wallet < 2 ^ 64
      → ((player_at (check id t).0 a).bet ≡ t.bet)
        × ((player_at (check id t).0 a).wallet + t.bet
            ≡ (player_at t a).bet + (player_at t a).wallet)
        × ((check id t).0.bet ≡ t.bet)
  unfolding check
  check_levels le funds b w = elim (Bool-cases ((player_at t a).bet == t.bet)) [
    | inl z ↦ rw (check, found, z) ((==_iff _ _).0 z, omega (arith, (==_iff _ _).0 z), refl)
    | inr z ↦
        let diff = sub64_lem t.bet (player_at t a).bet le b in
        let enough : ltb (player_at t a).wallet (sub64 t.bet (player_at t a).bet) ≡ false =
          ground (arith, diff) in
        rw (check, found, z, enough, player-set_player)
          (
            refl,
            omega (
              arith,
              diff,
              sub64_lem (player_at t a).wallet (sub64 t.bet (player_at t a).bet)
                  (omega (arith, diff)) w,
            ),
            refl,
          )
  ]

  -- A player who goes all in with chips is left with none, and the table asks for the larger of what
  -- it asked for and the player's new bet, which fits into 64 bits.
  pub all_in_levels :
      (player_at t a).wallet ≢ 0
      → (player_at t a).bet + (player_at t a).wallet < 2 ^ 64
      → ((player_at (all_in id t).0 a).wallet ≡ 0)
        × ((player_at (all_in id t).0 a).bet ≡ (player_at t a).bet + (player_at t a).wallet)
        × ((all_in id t).0.bet ≡ max t.bet ((player_at t a).bet + (player_at t a).wallet))
  unfolding all_in
  all_in_levels n b =
      let z : ((player_at t a).wallet == 0) ≡ false = ground arith in
      let sum = add64_lem (player_at t a).bet (player_at t a).wallet b in
      elim (Bool-cases (ltb t.bet (add64 (player_at t a).bet (player_at t a).wallet))) [
        | inl c ↦
            rw (all_in, found, z, c, player-set_player)
              (refl, sum, omega (arith, sum, ltb→lt _ _ c))
        | inr c ↦
            rw (all_in, found, z, c, player-set_player)
              (refl, sum, omega (arith, sum, ltb→le _ _ c))
      ]

  -- A raise that the player can pay, to a bet below what the table asks for, lowers what the table
  -- asks for to that bet. What the table asked for fits into 64 bits.
  pub raise_lowers :
      (amount : ℕ)
      → amount ≢ 0
      → amount ≤ (player_at t a).wallet
      → (player_at t a).bet + amount < t.bet
      → t.bet < 2 ^ 64
      → ((raise id amount t).0.bet ≡ (player_at (raise id amount t).0 a).bet)
        × ((raise id amount t).0.bet < t.bet)
  unfolding raise
  raise_lowers amount n le below b =
      let z : (amount == 0) ≡ false = ground arith in
      let enough : ltb (player_at t a).wallet amount ≡ false = ground arith in
      rw (raise, z, found, enough, player-set_player)
        (refl, omega (arith, add64_lem (player_at t a).bet amount (omega arith)))
