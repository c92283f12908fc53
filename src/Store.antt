-- ===== src/Store.antt =====
-- The nodes behind the `Arc<Mutex<PlayerNode>>` pointers of Poker/src/player.rs. A node's address
-- is its `Arc`, `ptr_eq` compares addresses, and a lock gives the node as it is.
pub mod Links
use rust_poker.Base.{◌+◌, Option, none, some, Bool, true, false, ◌==◌, if◌then◌else◌}
use rust_poker.Player.{Player, PlayerNode, Addr}

pub record Store : Type 0 where
  pub fresh : Addr
  pub node : Addr → PlayerNode

-- A write through one pointer.
unfoldable pub set_node : Addr → PlayerNode → Store → Store
set_node a n s = record s { node = λ b. if b == a then n else s.node b }

unfoldable pub set_player : Addr → Player → Store → Store
unfolding set_node
set_player a p s = set_node a (record (s.node a) { player = p }) s

-- `Arc::new`: a new address.
unfoldable pub alloc : PlayerNode → Store → Addr × Store
alloc n s =
    (s.fresh, record { fresh = s.fresh + 1; node = λ b. if b == s.fresh then n else s.node b })

-- `Some(node)` with `Arc::ptr_eq(node, a)`.
abbrev pub points_to : Addr → Option Addr → Bool
points_to a none = false
points_to a (some b) = b == a
