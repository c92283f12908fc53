-- ===== src/Table/Rounds/Turns.antt =====
-- The two walks of `advance_turn` of Server/src/lib.rs around the ring of active players,
-- `next_betting_node` and the test that all bets are matched, and their descriptions on lists.
use rust_poker.Base.{
  ℕ, zero, suc, ◌≤◌, ◌<◌, ◌≡◌, ◌≢◌, refl, sym, List, [], ◌∷◌, some, Bool, true, false, not, ◌&&◌,
  ◌==◌, ==_refl, ltb, length, find, All, arith,
}
use rust_poker.Player.{PlayerNode, Addr}
use rust_poker.Store.{Store}
use rust_poker.Store.Links.{Links, Ring}
use rust_poker.Table.Money.{Distinct}
use rust_poker.Table.Rounds.{next_from, next_betting_node, all_matched}

-- A player who has not folded and has chips.
abbrev pub can_bet : PlayerNode → Bool
can_bet n = not n.player.folded && ltb 0 n.player.wallet

-- A player whose bet is the table's, or who has no chips.
abbrev pub has_matched : ℕ → PlayerNode → Bool
has_matched bet n = not (ltb 0 n.player.wallet && not (n.player.bet == bet))

abbrev pub every : (Addr → Bool) → List Addr → Bool
every p [] = true
every p (x ∷ xs) = p x && every p xs

differ : (a b : ℕ) → a ≢ b → (a == b) ≡ false
differ a b n = ground arith

next_from-find :
    (xs : List Addr) (fuel : ℕ) (current a : Addr) (s : Store)
    → length xs < fuel
    → Links s a xs current
    → All (λ x. x ≢ current) xs
    → next_from fuel current a s ≡ some (find (λ x. can_bet (s.node x)) (a ∷ xs))
next_from-find xs zero current a s h l n = absurd (omega arith)
next_from-find [] (suc fuel) current a s h l n = rw (l, ==_refl current) (ground arith)
next_from-find (x ∷ xs) (suc fuel) current a s h l n =
    rw (l.0, differ x current n.0, next_from-find xs fuel current x s (omega arith) l.1 n.1)
      (ground arith)

-- On a ring of at least two players, with at least as much fuel as there are others,
-- `next_betting_node` gives the first of the others in the order of the ring who has not folded and
-- has chips, and none if there is no such player.
pub next_betting_node-find :
    (s : Store) (current : Addr) (rest : List Addr) (fuel : ℕ)
    → Ring s current rest
    → length rest ≤ fuel
    → next_betting_node fuel current s ≡ some (find (λ x. can_bet (s.node x)) rest)
unfolding next_betting_node
next_betting_node-find s current [] fuel r h = absurd (r.two refl)
next_betting_node-find s current (x ∷ xs) fuel r h =
    rw (next_betting_node, r.linked.0)
      (next_from-find xs fuel current x s (omega arith) r.linked.1 r.others.1)

all_matched-later :
    (xs : List Addr) (fuel bet id : ℕ) (head a : Addr) (s : Store)
    → length xs < fuel
    → Links s a xs head
    → Distinct (head ∷ a ∷ xs)
    → (s.node head).player.id ≡ id
    → All (λ x. (s.node x).player.id ≢ id) xs
    → all_matched fuel bet id a false s ≡ some (every (λ x. has_matched bet (s.node x)) (a ∷ xs))
unfolding all_matched
all_matched-later xs zero bet id head a s h l d e n = absurd (omega arith)
all_matched-later [] (suc fuel) bet id head a s h l d e n =
    rw (all_matched, l, differ head a (λ q. d.0.0 (sym q)), e, ==_refl id) (ground arith)
all_matched-later (x ∷ xs) (suc fuel) bet id head a s h l d e n =
    rw
      (
        all_matched,
        l.0,
        differ x a d.1.0.0,
        differ (s.node x).player.id id n.0,
        l.0,
        all_matched-later xs fuel bet id head x s (omega arith) l.1 ((d.0.1), d.1.1) e n.1,
      )
      (ground arith)

-- On a ring of at least two players with different ids, with as much fuel as there are players, the
-- test of `advance_turn` tells whether each other player has bet what the table asks for or has no
-- chips left.
pub all_matched-every :
    (s : Store) (head : Addr) (rest : List Addr) (fuel bet : ℕ)
    → Links s head rest head
    → rest ≢ []
    → Distinct (head ∷ rest)
    → All (λ x. (s.node x).player.id ≢ (s.node head).player.id) rest
    → length rest < fuel
    → all_matched fuel bet (s.node head).player.id head true s
      ≡ some (every (λ x. has_matched bet (s.node x)) rest)
unfolding all_matched
all_matched-every s head [] fuel bet l two d n h = absurd (two refl)
all_matched-every s head (x ∷ xs) zero bet l two d n h = absurd (omega arith)
all_matched-every s head (x ∷ xs) (suc fuel) bet l two d n h =
    rw
      (
        all_matched,
        l.0,
        differ x head d.0.0,
        differ (s.node x).player.id (s.node head).player.id n.0,
        l.0,
      )
      (all_matched-later xs fuel bet _ head x s (omega arith) l.1 d refl n.1)
