-- ===== src/Game/Laws.antt =====
-- The shared dealing loop and the shared choice of a winner of Poker/src/games/.
use mathlib.Core.Path.{fun_ext}
use rust_poker.Base.{
  ℕ, zero, suc, ◌<◌, ◌≡◌, ◌≢◌, refl, ap, ◌∙◌, List, [], ◌∷◌, some, Bool, true, false, not, ◌&&◌,
  Ordering, if◌then◌else◌, ◌==◌, arith, length, All, All-imp, ==_refl,
}
use rust_poker.Base.Max.{max_by, max_by_lem, Among}
use rust_poker.Hand.{Hand}
use rust_poker.Hand.Evaluate.{evaluate}
use rust_poker.Hand.Rank.{HandRank, cmp}
use rust_poker.Hand.Rank.Order.{order, order-IsTotalOrder, order_of_cmp, cmp-key}
use rust_poker.Player.{Player, Addr}
use rust_poker.Store.{Store}
use rust_poker.Store.Links.{Links, Ring, Links-set_player}
use rust_poker.Game.{deal_step, deal_loop, cmp_rank, best_hand}

≢→== : (a b : ℕ) → a ≢ b → (a == b) ≡ false
≢→== a b n = ground arith

module _ {G : Type 0} (deal : Player → G → Player × G) where
  -- Dealing to the nodes of a list, one after the other.
  abbrev pub deal_each : List Addr → G × Store → G × Store
  deal_each [] gs = gs
  deal_each (a ∷ as') gs = deal_each as' (deal_step deal a gs)

  step-Links :
      (c : Addr) (gs : G × Store) (a : Addr) (xs : List Addr) (b : Addr)
      → Links gs.1 a xs b
      → Links (deal_step deal c gs).1 a xs b
  unfolding deal_step
  step-Links c (g, s) a xs b l = Links-set_player s c (deal (s.node c).player g).0 a xs b l

  deal_loop-next :
      (fuel : ℕ) (head a b : Addr) (first : Bool) (gs : G × Store)
      → ((deal_step deal a gs).1.node a).next ≡ some b
      → deal_loop deal (suc fuel) head a first gs ≡ (
          if (b == head) && not first
          then some (deal_step deal a gs)
          else deal_loop deal fuel head b false (deal_step deal a gs))
  unfolding deal_loop
  deal_loop-next fuel head a b first gs e = rw (e, deal_loop)

  deal_loop-later :
      (xs : List Addr) (fuel : ℕ) (head a : Addr) (gs : G × Store)
      → length xs < fuel
      → Links gs.1 a xs head
      → All (λ x. x ≢ head) xs
      → deal_loop deal fuel head a false gs ≡ some (deal_each (a ∷ xs) gs)
  deal_loop-later xs zero head a gs h l n = absurd (omega arith)
  deal_loop-later [] (suc fuel) head a gs h l n =
      deal_loop-next fuel head a head false gs (step-Links a gs a [] head l) ∙ rw (==_refl head)
  deal_loop-later (x ∷ xs) (suc fuel) head a gs h l n =
      let l' = step-Links a gs a (x ∷ xs) head l in
      deal_loop-next fuel head a x false gs l'.0
      ∙ rw (≢→== x head n.0)
          (deal_loop-later xs fuel head x (deal_step deal a gs) (omega arith) l'.1 n.1)

  -- The loop ends and deals to each player of a ring of at least two exactly once, in the order of
  -- the ring, if its fuel is above the number of players.
  pub deal_loop-Ring :
      (s : Store) (head : Addr) (rest : List Addr) (fuel : ℕ) (g : G)
      → Ring s head rest
      → length (head ∷ rest) < fuel
      → deal_loop deal fuel head head true (g, s) ≡ some (deal_each (head ∷ rest) (g, s))
  deal_loop-Ring s head [] fuel g r h = absurd (r.two refl)
  deal_loop-Ring s head (x ∷ xs) zero g r h = absurd (omega arith)
  deal_loop-Ring s head (x ∷ xs) (suc fuel) g r h =
      let l' = step-Links head (g, s) head (x ∷ xs) head r.linked in
      deal_loop-next fuel head head x true (g, s) l'.0
      ∙ rw (≢→== x head r.others.0) (
          deal_loop-later xs fuel head x (deal_step deal head (g, s)) (omega arith) l'.1 r.others.1)

-- `best_hand` compares by the total order of ranks.
cmp_rank-order : (a b : HandRank) → cmp_rank a b ≡ order a b
cmp_rank-order a b = rw (cmp-key a b, cmp_rank)

-- Whoever is chosen is one of the players, and no player's hand ranks above the chosen one; somebody
-- is chosen if there are players at all.
pub best_hand_lem :
    (view : Hand → Hand) (players : List (ℕ × Hand))
    → players ≢ []
    → (m : ℕ × Hand) × (best_hand view players ≡ some m)
      × Among m players
      × All (λ p. cmp (evaluate (view p.1)) (evaluate (view m.1)) ≢ some Ordering.gt) players
unfolding best_hand
best_hand_lem view players n =
    let key = λ (p : ℕ × Hand). evaluate (view p.1) in
    let same = fun_ext (λ a. fun_ext (λ b. cmp_rank-order (key a) (key b))) in
    let (m, e, among, best) = max_by_lem order-IsTotalOrder key players n in
    (
      m,
      ap (λ f. max_by f players) same ∙ e,
      among,
      All-imp (λ p h k. h (order_of_cmp (key p) (key m) Ordering.gt k)) players best,
    )
