-- ===== src/Store/Links.antt =====
-- Chains of `next` pointers in the store of player nodes.
use rust_poker.Base.{◌∙◌, ◌≡◌, ◌≢◌, List, [], ◌∷◌, some, All, arith}
use rust_poker.Player.{Player, Addr}
use rust_poker.Store.{Store, set_player}

-- From `a` the `next` pointers lead through `xs` to `b`.
abbrev pub Links : Store → Addr → List Addr → Addr → Type 0
Links s a [] b = (s.node a).next ≡ some b
Links s a (x ∷ xs) b = ((s.node a).next ≡ some x) × Links s x xs b

-- A ring of at least two nodes that starts at `head`.
pub record Ring (s : Store) (head : Addr) (rest : List Addr) : Type 0 where
  pub linked : Links s head rest head
  pub others : All (λ x. x ≢ head) rest
  pub two : rest ≢ []

pub next-set_player :
    (s : Store) (a : Addr) (p : Player) (b : Addr)
    → ((set_player a p s).node b).next ≡ (s.node b).next
unfolding set_player
next-set_player s a p b = ground arith

pub Links-set_player :
    (s : Store) (c : Addr) (p : Player) (a : Addr) (xs : List Addr) (b : Addr)
    → Links s a xs b
    → Links (set_player c p s) a xs b
Links-set_player s c p a [] b l = next-set_player s c p a ∙ l
Links-set_player s c p a (x ∷ xs) b l =
    (next-set_player s c p a ∙ l.0, Links-set_player s c p x xs b l.1)
