-- ===== src/Table/Bets.antt =====
-- `raise`, `all_in` and `check` of Server/src/lib.rs.
pub mod Laws
pub mod Levels
pub mod Covered
use rust_poker.Base.{ℕ, Option, none, some, if◌then◌else◌, ◌==◌, ltb}
use rust_poker.Game.{Game}
use rust_poker.Player.{Player, Addr}
use rust_poker.Store.{set_player}
use rust_poker.Table.{
  Table, Result, ok, err, player_not_found, raise_amount_zero, insufficient_funds, already_all_in,
  cannot_check, add64, sub64, lookup, player_at, persist_player, player_send,
}

module _ {G : Game} where
  -- A player written back, persisted and sent.
  unfoldable pub finish : ℕ → Addr → Player → Table G → Table G × Result
  unfolding persist_player
  finish id a p t =
      let t' = persist_player p (record t { store = set_player a p t.store }) in
      (t', player_send id t')

  unfoldable pub raise : ℕ → ℕ → Table G → Table G × Result
  unfolding finish
  raise id amount t =
      if amount == 0 then (t, err raise_amount_zero) else elim (lookup id t.players) [
        | none ↦ (t, err player_not_found)
        | some a ↦
            let p = player_at t a in
            let t' = record t { bettor = some a } in
            let p' = record p { wallet = sub64 p.wallet amount; bet = add64 p.bet amount } in
            if ltb p.wallet amount
            then (t', err insufficient_funds)
            else finish id a p' (record t' { pot = add64 t.pot amount; bet = p'.bet })
      ]

  unfoldable pub all_in : ℕ → Table G → Table G × Result
  unfolding finish
  all_in id t = elim (lookup id t.players) [
    | none ↦ (t, err player_not_found)
    | some a ↦
        let p = player_at t a in
        let p' = record p { wallet = 0; bet = add64 p.bet p.wallet } in
        let t' = record t { pot = add64 t.pot p.wallet } in
        if p.wallet == 0
        then (t, err already_all_in)
        else if ltb t.bet p'.bet
        then finish id a p' (record t' { bet = p'.bet; bettor = some a })
        else finish id a p' t'
  ]

  unfoldable pub check : ℕ → Table G → Table G × Result
  unfolding finish
  check id t = elim (lookup id t.players) [
    | none ↦ (t, err player_not_found)
    | some a ↦
        let p = player_at t a in
        let diff = sub64 t.bet p.bet in
        let p' = record p { bet = t.bet; wallet = sub64 p.wallet diff } in
        if p.bet == t.bet
        then (t, player_send id t)
        else if ltb p.wallet diff
        then (t, err cannot_check)
        else finish id a p' (record t { pot = add64 t.pot diff })
  ]
