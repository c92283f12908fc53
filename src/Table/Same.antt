-- ===== src/Table/Same.antt =====
-- Stores with the same money, Server/src/lib.rs: what the operations that move no chips leave alone.
use rust_poker.Base.{◌≡◌, refl, ◌∙◌, [], ◌∷◌, Option, none, some, true, arith}
use rust_poker.Player.{Player, PlayerNode, Addr}
use rust_poker.Store.{Store, set_node, set_player}
use rust_poker.Table.{Players}
use rust_poker.Table.Finish.{unlink, set_next, set_prev}
use rust_poker.Table.Money.{funds}
use rust_poker.Table.Pots.{bets}
use rust_poker.Table.Seats.{set_nextf, set_prevf}

-- The same wallets and bets, and the same next free address.
pub record SameMoney (s s' : Store) : Type 0 where
  pub fresh : s'.fresh ≡ s.fresh
  pub wallet : (b : Addr) → (s'.node b).player.wallet ≡ (s.node b).player.wallet
  pub bet : (b : Addr) → (s'.node b).player.bet ≡ (s.node b).player.bet

pub SameMoney_refl : (s : Store) → SameMoney s s
SameMoney_refl s = record { fresh = refl; wallet = λ b. refl; bet = λ b. refl }

pub SameMoney_trans : {s s' s'' : Store} → SameMoney s s' → SameMoney s' s'' → SameMoney s s''
SameMoney_trans p q = record {
  fresh = q.fresh ∙ p.fresh;
  wallet = λ b. q.wallet b ∙ p.wallet b;
  bet = λ b. q.bet b ∙ p.bet b;
}

pub set_node-SameMoney :
    (a : Addr) (n : PlayerNode) (s : Store)
    → n.player.wallet ≡ (s.node a).player.wallet
    → n.player.bet ≡ (s.node a).player.bet
    → SameMoney s (set_node a n s)
unfolding set_node
set_node-SameMoney a n s w e = record {
  fresh = refl;
  wallet = λ b. ground arith;
  bet = λ b. ground arith;
}

pub set_player-SameMoney :
    (a : Addr) (p : Player) (s : Store)
    → p.wallet ≡ (s.node a).player.wallet
    → p.bet ≡ (s.node a).player.bet
    → SameMoney s (set_player a p s)
unfolding set_player
set_player-SameMoney a p s w e = set_node-SameMoney a _ s w e

set_next-SameMoney : (o v : Option Addr) (s : Store) → SameMoney s (set_next o v s)
set_next-SameMoney none v s = SameMoney_refl s
set_next-SameMoney (some a) v s = set_node-SameMoney a _ s refl refl

set_prev-SameMoney : (o v : Option Addr) (s : Store) → SameMoney s (set_prev o v s)
set_prev-SameMoney none v s = SameMoney_refl s
set_prev-SameMoney (some a) v s = set_node-SameMoney a _ s refl refl

pub set_nextf-SameMoney : (o v : Option Addr) (s : Store) → SameMoney s (set_nextf o v s)
set_nextf-SameMoney none v s = SameMoney_refl s
set_nextf-SameMoney (some a) v s = set_node-SameMoney a _ s refl refl

pub set_prevf-SameMoney : (o v : Option Addr) (s : Store) → SameMoney s (set_prevf o v s)
set_prevf-SameMoney none v s = SameMoney_refl s
set_prevf-SameMoney (some a) v s = set_node-SameMoney a _ s refl refl

pub unlink-SameMoney : (a : Addr) (s : Store) → SameMoney s (unlink a s)
unfolding unlink
unlink-SameMoney a s =
    let n = s.node a in
    let alone = record n {
      player = record (n.player) { folded = true };
      next = none;
      prev = none;
    } in
    let s' = set_node a alone s in
    SameMoney_trans (set_node-SameMoney a alone s refl refl) (
      SameMoney_trans (set_next-SameMoney n.prev n.next s')
        (set_prev-SameMoney n.next n.prev (set_next n.prev n.next s')))

pub funds-SameMoney : {s s' : Store} (m : Players) → SameMoney s s' → funds s' m ≡ funds s m
funds-SameMoney [] h = refl
funds-SameMoney ((id, a) ∷ m) h = rw (h.wallet a, funds-SameMoney m h)

pub bets-SameMoney : {s s' : Store} (m : Players) → SameMoney s s' → bets s' m ≡ bets s m
bets-SameMoney [] h = refl
bets-SameMoney ((id, a) ∷ m) h = rw (h.bet a, bets-SameMoney m h)
