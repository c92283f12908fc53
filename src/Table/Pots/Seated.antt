-- ===== src/Table/Pots/Seated.antt =====
-- The winners of the pots in `pay_showdown_pots` of Server/src/lib.rs.
use rust_poker.Base.{
  ℕ, ◌+◌, ◌^◌, ◌<◌, ◌≡◌, ◌⊎◌, ap, subst, List, [], ◌∷◌, some, Bool, true, false, ◌||◌, Bool-cases,
  inl, inr, if◌then◌else◌, ◌==◌, ltb, arith,
}
use rust_poker.Base.Max.{Among, max_by}
use rust_poker.Game.{Game, best_hand}
use rust_poker.Game.Laws.{best_hand_lem}
use rust_poker.Hand.{Hand}
use rust_poker.Player.{Addr}
use rust_poker.Store.{Store}
use rust_poker.Table.{Players, add64, addresses, lookup}
use rust_poker.Table.Money.{Distinct, funds, funds-set_player, lookup-funds, add64_lem}
use rust_poker.Table.Pots.{pay, rivals, level_winner, unfolded}

-- The id of somebody at the table.
abbrev pub IsSeated : ℕ → Players → Type 0
IsSeated id m = (a : Addr) × (lookup id m ≡ some a)

IsSeated-cons : (id k : ℕ) (b : Addr) (m : Players) → IsSeated id m → IsSeated id ((k, b) ∷ m)
IsSeated-cons id k b m (a, e) = elim (Bool-cases (k == id)) [
  | inl c ↦ (b, rw (c))
  | inr c ↦ (a, rw (c) e)
]

IsSeated-here : (id k : ℕ) (b : Addr) (m : Players) → k ≡ id → IsSeated id ((k, b) ∷ m)
IsSeated-here id k b m e = (b, ground arith)

-- Paying a player who is seated adds the amount to the wallets.
pub funds-pay :
    (id amount : ℕ) (m : Players) (s : Store)
    → Distinct (addresses m)
    → IsSeated id m
    → funds s m + amount < 2 ^ 64
    → funds (pay id amount m s) m ≡ funds s m + amount
unfolding pay
funds-pay id amount m s d (a, e) h =
    let part = lookup-funds s id m a e in
    let sum = add64_lem (s.node a).player.wallet amount (omega (arith, part)) in
    let p = record ((s.node a).player) { wallet = add64 (s.node a).player.wallet amount } in
    rw (pay, e) (omega (arith, sum, funds-set_player s a p id m d e))

best_hand-Among :
    (view : Hand → Hand) (ps : List (ℕ × Hand)) (w : ℕ × Hand)
    → best_hand view ps ≡ some w
    → Among w ps
unfolding best_hand max_by
best_hand-Among view [] w e = absurd (ground arith)
best_hand-Among view (p ∷ ps) w e =
    let (v, f, among, _) = best_hand_lem view (p ∷ ps) (λ q. ground arith) in
    subst (λ u. Among u (p ∷ ps)) (ground (arith, e, f)) among

Among-unless :
    (b : Bool) (x w : ℕ × Hand) (xs : List (ℕ × Hand))
    → Among w (if b then xs else x ∷ xs)
    → (x ≡ w) ⊎ Among w xs
Among-unless true x w xs h = inr h
Among-unless false x w xs h = h

module _ (G : Game) (g : G.State) where
  rivals-IsSeated :
      (m : Players) (level : ℕ) (s : Store) (w : ℕ × Hand) (n : Players)
      → Among w (rivals G g m level s n)
      → IsSeated w.0 n
  rivals-IsSeated m level s w [] h = absurd h
  rivals-IsSeated m level s w ((k, a) ∷ n) h =
      elim (Among-unless ((s.node a).player.folded || ltb (s.node a).player.bet level)
        (k, G.showdown_hand g (s.node a).player.hand) w (rivals G g m level s n) h) [
          | inl e ↦ IsSeated-here w.0 k a n (ap (λ v. v.0) e)
          | inr r ↦ IsSeated-cons w.0 k a n (rivals-IsSeated m level s w n r)
        ]

  pub level_winner-IsSeated :
      (m : Players) (level : ℕ) (s : Store) (w : ℕ × Hand)
      → level_winner G g m level s ≡ some w
      → IsSeated w.0 m
  unfolding level_winner best_hand
  level_winner-IsSeated m level s w e =
      rivals-IsSeated m level s w m (best_hand-Among (λ h. h) (rivals G g m level s m) w e)

  pub unfolded-IsSeated :
      (m : Players) (s : Store) (w : ℕ × Hand) (n : Players)
      → Among w (unfolded G g m s n)
      → IsSeated w.0 n
  unfolded-IsSeated m s w [] h = absurd h
  unfolded-IsSeated m s w ((k, a) ∷ n) h =
      elim (Among-unless (s.node a).player.folded (k, (s.node a).player.hand) w (unfolded G g m s n)
        h) [
          | inl e ↦ IsSeated-here w.0 k a n (ap (λ v. v.0) e)
          | inr r ↦ IsSeated-cons w.0 k a n (unfolded-IsSeated m s w n r)
        ]
