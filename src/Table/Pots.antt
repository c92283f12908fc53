-- ===== src/Table/Pots.antt =====
-- `pay_showdown_pots` of Server/src/lib.rs: the side pots, one for each level of bets.
pub mod Excess
pub mod Seated
pub mod Laws
use rust_poker.Base.{
  ℕ, ◌+◌, ◌-◌, List, [], ◌∷◌, Option, none, some, Bool, true, false, not, ◌&&◌, ◌||◌, compare,
  if◌then◌else◌, ◌==◌, ltb, leb, length, filter, map,
}
use rust_poker.Base.Max.{max_by}
use rust_poker.Base.Sort.{sort_by}
use rust_poker.Game.{Game, cmp_rank}
use rust_poker.Hand.{Hand}
use rust_poker.Hand.Evaluate.{evaluate}
use rust_poker.Hand.Straight.{dedup}
use rust_poker.Player.{Player, Addr}
use rust_poker.Store.{Store, set_player}
use rust_poker.Table.{Table, Players, add64, sub64, mul64, lookup}

-- The bets of the players.
abbrev pub bets : Store → Players → List ℕ
bets s [] = []
bets s ((id, a) ∷ m) = (s.node a).player.bet ∷ bets s m

-- `sort_unstable` and `dedup` on the bets above 0.
unfoldable pub levels : Store → Players → List ℕ
levels s m = dedup (sort_by compare (filter (λ bet. ltb 0 bet) (bets s m)))

-- How many players have bet at least `level`.
unfoldable pub contributors : ℕ → Store → Players → ℕ
contributors level s m = length (filter (λ bet. leb level bet) (bets s m))

-- `wallet += amount` for the player with that id, if there is one.
unfoldable pub pay : ℕ → ℕ → Players → Store → Store
pay id amount m s = elim (lookup id m) [
  | none ↦ s
  | some a ↦
      let p = (s.node a).player in set_player a (record p { wallet = add64 p.wallet amount }) s
]

module _ (G : Game) (g : G.State) (m : Players) where
  -- The players in the pot of a level, with their hands as the showdown sees them.
  abbrev pub rivals : ℕ → Store → Players → List (ℕ × Hand)
  rivals level s [] = []
  rivals level s ((id, a) ∷ rest) =
      let p = (s.node a).player in
      if p.folded || ltb p.bet level
      then rivals level s rest
      else (id, G.showdown_hand g p.hand) ∷ rivals level s rest

  unfoldable pub level_winner : ℕ → Store → Option (ℕ × Hand)
  level_winner level s = max_by (λ a b. cmp_rank (evaluate a.1) (evaluate b.1)) (rivals level s m)

  -- The loop over the levels: the level before, what has been paid, and the store.
  unfoldable pub pay_levels : ℕ → ℕ → Store → List ℕ → ℕ × Store
  pay_levels previous paid s [] = (paid, s)
  pay_levels previous paid s (level ∷ rest) =
      let pot = mul64 (sub64 level previous) (contributors level s m) in
      elim (level_winner level s) [
        | none ↦ pay_levels level paid s rest
        | some (id, _) ↦ pay_levels level (add64 paid pot) (pay id pot m s) rest
      ]

  -- The players who have not folded, with their own hands.
  abbrev pub unfolded : Store → Players → List (ℕ × Hand)
  unfolded s [] = []
  unfolded s ((id, a) ∷ rest) =
      let p = (s.node a).player in
      if p.folded then unfolded s rest else (id, p.hand) ∷ unfolded s rest

  -- What the side pots leave of the pot goes to the winner that the game determines.
  unfoldable pub pay_rest : ℕ → ℕ → Store → Store
  pay_rest pot paid s =
      if ltb paid pot
      then elim (G.determine_winner g (unfolded s m)) [
        | none ↦ s
        | some id ↦ pay id (sub64 pot paid) m s
      ]
      else s

unfoldable pub pay_showdown_pots : {G : Game} → Table G → Table G
unfolding pay_levels pay_rest
pay_showdown_pots {G} t =
    let (paid, s) = pay_levels G t.game t.players 0 0 t.store (levels t.store t.players) in
    record t { store = pay_rest G t.game t.players t.pot paid s }
