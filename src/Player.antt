-- ===== src/Player.antt =====
-- Poker/src/player.rs: a player, and the node that a table's rings link. An `Arc` is the address
-- of a node. Of a TCP stream the model keeps whether a write to it succeeds.
use Prim.Native.String.{String, ◌++◌}
use rust_poker.Base.{ℕ, [], Bool, true, Option}
use rust_poker.Hand
use rust_poker.Hand.{Hand}

pub record Player : Type 0 where
  pub id : ℕ
  pub name : String
  pub wallet : ℕ
  pub hand : Hand
  pub bet : ℕ
  pub folded : Bool

pub record BroadcastPlayer : Type 0 where
  pub id : ℕ
  pub name : String
  pub wallet : ℕ
  pub hand : Hand
  pub bet : ℕ
  pub folded : Bool

abbrev pub Addr : Type 0
Addr = ℕ

-- `TcpStream`: the network decides whether `try_clone` and `write_all` succeed.
pub record Stream : Type 0 where
  pub writable : Bool

pub record PlayerNode : Type 0 where
  pub player : Player
  pub stream : Option Stream
  pub nextf : Option Addr
  pub prevf : Option Addr
  pub next : Option Addr
  pub prev : Option Addr

unfoldable pub new : ℕ → String → ℕ → Player
new id name wallet = record {
  id = id;
  name = name;
  wallet = wallet;
  hand = record { cards = [] };
  bet = 0;
  folded = true;
}

unfoldable pub reset : Player → Player
reset p = record p { hand = record { cards = [] }; bet = 0; folded = true }

unfoldable pub to_stream : Player → BroadcastPlayer
to_stream p = record {
  id = p.id;
  name = p.name;
  wallet = p.wallet;
  hand = p.hand;
  bet = p.bet;
  folded = p.folded;
}

unfoldable pub to_broadcast : Player → BroadcastPlayer
to_broadcast p = record {
  id = p.id;
  name = p.name;
  wallet = p.wallet;
  hand = Hand.to_broadcast p.hand;
  bet = p.bet;
  folded = p.folded;
}

-- `Display::fmt`; `decimal` prints a number.
unfoldable pub to_string : (decimal : ℕ → String) → Player → String
unfolding Hand.to_string
to_string decimal p =
    "Player "
    ++ decimal p.id
    ++ " ("
    ++ p.name
    ++ "): 💰 $"
    ++ decimal p.wallet
    ++ " | Current Bet: $"
    ++ decimal p.bet
    ++ " | Cards: "
    ++ Hand.to_string p.hand
