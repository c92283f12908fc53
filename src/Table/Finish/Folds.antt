-- ===== src/Table/Finish/Folds.antt =====
-- The chips of a table across `fold` of Server/src/lib.rs.
use rust_poker.Base.{
  ℕ, ◌^◌, ◌≤◌, ◌<◌, ◌≡◌, refl, subst, ◌∙◌, Option, none, some, Option-cases, Bool-cases, inl, inr,
  ◌||◌,
}
use rust_poker.Game.{Game}
use rust_poker.Store.{points_to}
use rust_poker.Table.{Table, Result, addresses, lookup, mark_turn_started, persist_player}
use rust_poker.Table.Bets.Laws.{chips}
use rust_poker.Table.Finish.{fold, same_node}
use rust_poker.Table.Finish.Chips.{end_game-chips}
use rust_poker.Table.Money.{Distinct}
use rust_poker.Table.Pots.{bets}
use rust_poker.Table.Pots.Excess.{excess}
use rust_poker.Table.Pots.Laws.{FindsWinner}
use rust_poker.Table.Same.{unlink-SameMoney, funds-SameMoney, bets-SameMoney}

module _ {G : Game} where
  abbrev KeepsChips : ℕ → Option (Table G × Result) → Type 0
  KeepsChips n none = Unit
  KeepsChips n (some (u, _)) = chips u ≡ n

  fold-cases :
      (now id : ℕ) (t : Table G)
      → FindsWinner G
      → Distinct (addresses t.players)
      → excess 0 (bets t.store t.players) ≤ t.pot
      → chips t < 2 ^ 64
      → KeepsChips (chips t) (fold now id t)
  unfolding fold mark_turn_started persist_player
  fold-cases now id t find d covered h = elim (Option-cases (lookup id t.players)) [
    | inl e ↦ rw (fold, e) refl
    | inr (a, e) ↦
        let prev = (t.store.node a).prev in
        let next = (t.store.node a).next in
        let same = unlink-SameMoney a t.store in
        let wallets = funds-SameMoney t.players same in
        let stakes = bets-SameMoney t.players same in
        elim (Bool-cases (points_to a prev || points_to a next)) [
          | inl c ↦ rw (fold, e, c) tt
          | inr c ↦ elim (Bool-cases (same_node prev next)) [
            | inl q ↦
                rw (fold, e, c, q)
                  (end_game-chips _ find d (rw (stakes) covered) (rw (wallets) h) ∙ rw (wallets))
            | inr q ↦ rw (fold, e, c, q) (rw (wallets))
          ]
        ]
  ]

  -- A fold that returns, whether it ends the game or not, leaves the sum of all wallets and the pot as
  -- it is, if the players' nodes are distinct, the bets are covered by the pot, that sum fits into 64
  -- bits, and the game finds a winner among any players there are.
  fold-chips :
      (now id : ℕ) (t u : Table G) (r : Result)
      → FindsWinner G
      → Distinct (addresses t.players)
      → excess 0 (bets t.store t.players) ≤ t.pot
      → chips t < 2 ^ 64
      → fold now id t ≡ some (u, r)
      → chips u ≡ chips t
  fold-chips now id t u r find d covered h e =
      subst (KeepsChips (chips t)) e (fold-cases now id t find d covered h)
