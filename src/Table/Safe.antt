-- ===== src/Table/Safe.antt =====
-- The invariant of a table of Server/src/lib.rs that every operation keeps, and the operations that
-- bet or fold. The children go through the rounds and the seats.
pub mod Rounds
pub mod Ending
pub mod Start
pub mod Leaving
pub mod Joining
pub mod Games
pub mod Expiry
use rust_poker.Base.{
  ℕ, ◌+◌, ◌^◌, ◌≤◌, ◌<◌, ◌%◌, ◌≡◌, refl, sym, ap, subst, ◌∙◌, some, Option-cases, true, false,
  Bool-cases, ltb, ◌==◌, inl, inr, All, arith,
}
use rust_poker.Game.{Game}
use rust_poker.Player.{Player, Addr}
use rust_poker.Store.{Store, set_player}
use rust_poker.Table.{Table, Players, addresses, lookup, player_at, persist_player, sub64, add64}
use rust_poker.Table.Bets.{raise, all_in, check, finish}
use rust_poker.Table.Bets.Covered.{stakes, Covered, betting-Covered}
use rust_poker.Table.Bets.Laws.{chips, raise-chips, all_in-chips, check-chips}
use rust_poker.Table.Money.{Distinct}
use rust_poker.Table.Same.{SameMoney, funds-SameMoney, bets-SameMoney}

module _ {G : Game} where
  -- The players' nodes are distinct and behind the next free address, the pot holds at least the
  -- bets, and all chips are `total`, which with the table's bet fits into 64 bits.
  pub record Safe (total : ℕ) (t : Table G) : Type 0 where
    pub nodes : Distinct (addresses t.players)
    pub behind : All (λ a. a < t.store.fresh) (addresses t.players)
    pub stake : stakes t.store t.players ≤ t.pot
    pub whole : chips t ≡ total
    pub fits : total < 2 ^ 64
    pub small : t.bet < 2 ^ 64

  -- The invariant with whatever chips are left.
  abbrev pub SafeWithin : ℕ → Table G → Type 0
  SafeWithin total u = Safe (chips u) u × (chips u ≤ total)

  -- What does not depend on wallets and bets.
  abbrev pub SameSeats : Table G → Table G → Type 0
  SameSeats t u = (u.players ≡ t.players) × (u.store.fresh ≡ t.store.fresh)

  module _ {total : ℕ} where
    pub Safe-same :
        (t u : Table G)
        → u.players ≡ t.players
        → SameMoney t.store u.store
        → u.pot ≡ t.pot
        → u.bet ≡ t.bet
        → Safe total t
        → Safe total u
    Safe-same t u p m pot bet v = record {
      nodes = rw (p) v.nodes;
      behind = rw (p, m.fresh) v.behind;
      stake = rw (p, bets-SameMoney t.players m, pot) v.stake;
      whole = rw (p, funds-SameMoney t.players m, pot) v.whole;
      fits = v.fits;
      small = rw (bet) v.small;
    }

    Safe-Covered : (t : Table G) → Safe total t → Covered t
    Safe-Covered t v = record { nodes = v.nodes; stake = v.stake; total = rw (v.whole) v.fits }

    -- A bet by its chips, stakes and seats.
    Safe-bet :
        (t u : Table G)
        → Safe total t
        → SameSeats t u
        → stakes u.store u.players ≤ u.pot
        → chips u ≡ chips t
        → u.bet < 2 ^ 64
        → Safe total u
    Safe-bet t u v s stake c b = record {
      nodes = rw (s.0) v.nodes;
      behind = rw (s.0, s.1) v.behind;
      stake = stake;
      whole = c ∙ v.whole;
      fits = v.fits;
      small = b;
    }

  raise-seats : (id amount : ℕ) (t : Table G) → SameSeats t (raise id amount t).0
  unfolding raise finish persist_player set_player
  raise-seats id amount t = ground arith

  raise-bet : (id amount : ℕ) (t : Table G) → t.bet < 2 ^ 64 → (raise id amount t).0.bet < 2 ^ 64
  unfolding raise finish persist_player
  raise-bet id amount t h = ground (arith, h)

  all_in-seats : (id : ℕ) (t : Table G) → SameSeats t (all_in id t).0
  unfolding all_in finish persist_player set_player
  all_in-seats id t = ground arith

  all_in-bet : (id : ℕ) (t : Table G) → t.bet < 2 ^ 64 → (all_in id t).0.bet < 2 ^ 64
  unfolding all_in finish persist_player
  all_in-bet id t h = ground (arith, h)

  check-seats : (id : ℕ) (t : Table G) → SameSeats t (check id t).0
  unfolding check finish persist_player set_player
  check-seats id t = ground arith

  check-bet : (id : ℕ) (t : Table G) → (check id t).0.bet ≡ t.bet
  unfolding check finish persist_player
  check-bet id t = ground arith

  -- Betting keeps the invariant.
  module _ {total : ℕ} where
    pub raise-Safe : (id amount : ℕ) (t : Table G) → Safe total t → Safe total (raise id amount t).0
    raise-Safe id amount t v =
        let c = Safe-Covered t v in
        Safe-bet t (raise id amount t).0 v (raise-seats id amount t)
          (betting-Covered id amount t c v.small).0 (raise-chips id amount t v.nodes c.total)
          (raise-bet id amount t v.small)

    pub all_in-Safe : (id : ℕ) (t : Table G) → Safe total t → Safe total (all_in id t).0
    all_in-Safe id t v =
        let c = Safe-Covered t v in
        Safe-bet t (all_in id t).0 v (all_in-seats id t) (betting-Covered id 0 t c v.small).1
          (all_in-chips id t v.nodes c.total) (all_in-bet id t v.small)

    pub check-Safe : (id : ℕ) (t : Table G) → Safe total t → Safe total (check id t).0
    check-Safe id t v =
        let c = Safe-Covered t v in
        Safe-bet t (check id t).0 v (check-seats id t) (betting-Covered id 0 t c v.small).2
          (check-chips id t v.nodes c.total) (rw (check-bet id t) v.small)
