-- ===== src/Game/Cards.antt =====
-- The cards of the hands and of the deck while the games of Poker/src/games/ deal around a ring.
use rust_poker.Base.{
  ℕ, ◌+◌, ◌<◌, ◌≡◌, ◌≢◌, refl, sym, ap, ◌∙◌, List, [], ◌∷◌, some, true, arith, length, All,
}
use rust_poker.Deck.{Deck}
use rust_poker.Deck.Weight.{weigh}
use rust_poker.Player.{Player, Addr}
use rust_poker.Store.{Store, set_player}
use rust_poker.Store.Links.{Ring}
use rust_poker.Game.{deal_step, deal_loop}
use rust_poker.Game.Laws.{deal_each, deal_loop-Ring}

-- The nodes of a list differ.
abbrev pub Differ : List Addr → Type 0
Differ [] = Unit
Differ (a ∷ xs) = All (λ x. x ≢ a) xs × Differ xs

-- The weight of the hands of the nodes in a list.
abbrev pub held : (ℕ → ℕ) → Store → List Addr → ℕ
held w s [] = 0
held w s (a ∷ xs) = weigh w (s.node a).player.hand.cards + held w s xs

module _ {G : Type 0} (deal : Player → G → Player × G) (deck : G → Deck) (w : ℕ → ℕ) where
  -- Dealing to one player moves cards from the deck to the hand.
  abbrev pub KeepsCards : Type 0
  KeepsCards =
      (p : Player) (g : G)
      → weigh w (deal p g).0.hand.cards + weigh w (deck (deal p g).1).cards
        ≡ weigh w p.hand.cards + weigh w (deck g).cards

  step-other :
      (a b : Addr) (gs : G × Store)
      → b ≢ a
      → ((deal_step deal a gs).1.node b).player ≡ (gs.1.node b).player
  unfolding deal_step set_player
  step-other a b (g, s) n = ground arith

  step-same :
      (a : Addr) (gs : G × Store)
      → ((deal_step deal a gs).1.node a).player ≡ (deal (gs.1.node a).player gs.0).0
  unfolding deal_step set_player
  step-same a (g, s) = ground arith

  step-game :
      (a : Addr) (gs : G × Store) → (deal_step deal a gs).0 ≡ (deal (gs.1.node a).player gs.0).1
  unfolding deal_step
  step-game a (g, s) = refl

  held-step :
      (a : Addr) (xs : List Addr) (gs : G × Store)
      → All (λ x. x ≢ a) xs
      → held w (deal_step deal a gs).1 xs ≡ held w gs.1 xs
  held-step a [] gs n = refl
  held-step a (x ∷ xs) gs n = omega (
    arith,
    ap (λ (p : Player). weigh w p.hand.cards) (step-other a x gs n.0),
    held-step a xs gs n.1,
  )

  deal_each-other :
      (xs : List Addr) (a : Addr) (gs : G × Store)
      → All (λ x. x ≢ a) xs
      → ((deal_each deal xs gs).1.node a).player ≡ (gs.1.node a).player
  deal_each-other [] a gs n = refl
  deal_each-other (x ∷ xs) a gs n =
      deal_each-other xs a (deal_step deal x gs) n.1 ∙ step-other x a gs (λ e. n.0 (sym e))

  deal_each-keeps :
      KeepsCards
      → (xs : List Addr) (gs : G × Store) → Differ xs
      → held w (deal_each deal xs gs).1 xs + weigh w (deck (deal_each deal xs gs).0).cards
        ≡ held w gs.1 xs + weigh w (deck gs.0).cards
  deal_each-keeps k [] gs d = refl
  deal_each-keeps k (a ∷ xs) gs d = omega (
    arith,
    deal_each-keeps k xs (deal_step deal a gs) d.1,
    held-step a xs gs d.0,
    ap (λ (p : Player). weigh w p.hand.cards) (deal_each-other xs a (deal_step deal a gs) d.0),
    ap (λ (p : Player). weigh w p.hand.cards) (step-same a gs),
    ap (λ (g : G). weigh w (deck g).cards) (step-game a gs),
    k (gs.1.node a).player gs.0,
  )

  -- A round dealt to a ring ends, and no card is lost or made up.
  pub deal_loop-keeps :
      KeepsCards
      → (s : Store) (head : Addr) (rest : List Addr) (fuel : ℕ) (g : G) → Ring s head rest
      → Differ (head ∷ rest)
      → length (head ∷ rest) < fuel
      → (gs : G × Store) × (deal_loop deal fuel head head true (g, s) ≡ some gs)
        × (held w gs.1 (head ∷ rest) + weigh w (deck gs.0).cards
            ≡ held w s (head ∷ rest) + weigh w (deck g).cards)
  deal_loop-keeps k s head rest fuel g r d h = (
    deal_each deal (head ∷ rest) (g, s),
    deal_loop-Ring deal s head rest fuel g r h,
    deal_each-keeps k (head ∷ rest) (g, s) d,
  )
