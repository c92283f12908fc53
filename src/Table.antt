-- ===== src/Table.antt =====
-- `Table` of Server/src/lib.rs: its state, the map of players, sending, and the small operations.
-- The children model betting, the end of a game, the rings and the rounds. `players` is the hash
-- map as a list of its entries in the order in which it is walked, which may be any order. What the
-- code does to other parts of the server is kept in `log`: the database writes that it starts.
pub mod Bets
pub mod Pots
pub mod Finish
pub mod Seats
pub mod Rounds
pub mod Expiry
pub mod Money
pub mod Same
pub mod Safe
pub mod Steps
pub mod View
use rust_poker.Base.{
  ℕ, ◌+◌, ◌-◌, ◌*◌, ◌%◌, ◌^◌, List, [], ◌∷◌, ◌++◌, Option, none, some, Bool, true, false, not,
  String, if◌then◌else◌, ◌==◌, length, is_empty, is_some, contains,
}
use rust_poker.Game.{Game}
use rust_poker.Hand.{Hand}
use rust_poker.Player.{Player, PlayerNode, BroadcastPlayer, Addr, Stream, to_stream}
use rust_poker.Store.{Store, points_to}

-- `u64` arithmetic of a release build, which wraps.
abbrev pub u64_mod : ℕ
u64_mod = 2 ^ 64

abbrev pub add64 : ℕ → ℕ → ℕ
add64 a b = (a + b) % u64_mod

abbrev pub sub64 : ℕ → ℕ → ℕ
sub64 a b = (a + u64_mod - b) % u64_mod

abbrev pub mul64 : ℕ → ℕ → ℕ
mul64 a b = (a * b) % u64_mod

abbrev pub max_players_per_table : ℕ
max_players_per_table = 5

-- Seconds.
abbrev pub turn_timeout : ℕ
turn_timeout = 60

-- The texts of the errors, one constructor each.
pub data Error : Type 0 where
  player_not_found raise_amount_zero insufficient_funds already_all_in cannot_check : Error
  mutex_poisoned write_failed table_full no_showdown : Error
  action_refused : String → Error

pub data Reply : Type 0 where
  update : BroadcastPlayer → Reply
  removed keeps_playing : Reply

pub data Result : Type 0 where
  ok : Reply → Result
  err : Error → Result

-- A write that the code hands to a thread.
pub data Write : Type 0 where
  upsert : Player → Write
  delete : ℕ → Write
  save : String → Write

-- The JSON value of a showdown.
pub record Shown : Type 0 where
  pub id : ℕ
  pub name : String
  pub hand : Hand
  pub rank : String
  pub rank_cards : List ℕ

pub record Showdown : Type 0 where
  pub winner : ℕ
  pub players : List Shown

abbrev pub Players : Type 0
Players = List (ℕ × Addr)

pub record Table (G : Game) : Type 0 where
  pub store : Store
  pub players : Players
  pub head : Option Addr
  pub bettor : Option Addr
  pub blind : Option Addr
  pub turn : Option Addr
  pub bet : ℕ
  pub pot : ℕ
  pub game : G.State
  pub showdown : Option Showdown
  pub next_game_players : List ℕ
  pub turn_started_at : Option ℕ
  pub log : List Write

-- `HashMap::get`.
abbrev pub lookup : ℕ → Players → Option Addr
lookup id [] = none
lookup id ((k, a) ∷ m) = if k == id then some a else lookup id m

-- `HashMap::values`.
abbrev pub addresses : Players → List Addr
addresses [] = []
addresses ((id, a) ∷ m) = a ∷ addresses m

-- `HashMap::remove`.
unfoldable pub remove_key : ℕ → Players → Players
remove_key id [] = []
remove_key id ((k, a) ∷ m) = if k == id then m else (k, a) ∷ remove_key id m

module _ {G : Game} where
  -- A new table: no players, and the game as `G::new` makes it.
  unfoldable pub new : Table G
  new = record {
    store = record {
      fresh = 0;
      node = λ _. record {
        player = record {
          id = 0;
          name = "";
          wallet = 0;
          hand = record { cards = [] };
          bet = 0;
          folded = true;
        };
        stream = none;
        nextf = none;
        prevf = none;
        next = none;
        prev = none;
      };
    };
    players = [];
    head = none;
    bettor = none;
    blind = none;
    turn = none;
    bet = 0;
    pot = 0;
    game = G.new;
    showdown = none;
    next_game_players = [];
    turn_started_at = none;
    log = [];
  }

  unfoldable pub get_num_players : Table G → ℕ
  get_num_players t = length t.players

  unfoldable pub is_running : Table G → Bool
  is_running t = is_some t.turn

  unfoldable pub reset : Table G → Table G
  reset t = record t { bet = 0; pot = 0 }

  unfoldable pub get_player : ℕ → Table G → Option Addr
  get_player id t = lookup id t.players

  unfoldable pub mark_turn_started : ℕ → Table G → Table G
  mark_turn_started now t = record t { turn_started_at = if is_some t.turn then some now else none }

  unfoldable pub persist_player : Player → Table G → Table G
  persist_player p t = record t { log = upsert p ∷ t.log }

  unfoldable pub delete_player : ℕ → Table G → Table G
  delete_player id t = record t { log = delete id ∷ t.log }

  unfoldable pub trigger_save : String → Table G → Table G
  trigger_save event t = record t { log = save event ∷ t.log }

  abbrev pub player_at : Table G → Addr → Player
  player_at t a = (t.store.node a).player

  -- `held` is a lock that the caller holds, which makes `try_lock` on that node fail.
  unfoldable pub player_send_holding : Option Addr → ℕ → Table G → Result
  player_send_holding held id t = elim (lookup id t.players) [
    | none ↦ err player_not_found
    | some a ↦ if points_to a held then err mutex_poisoned else elim (t.store.node a).stream [
      | none ↦ ok (update (to_stream (player_at t a)))
      | some stream ↦
          if stream.writable then ok (update (to_stream (player_at t a))) else err write_failed
    ]
  ]

  unfoldable pub player_send : ℕ → Table G → Result
  unfolding player_send_holding
  player_send id t = player_send_holding none id t

  unfoldable pub keep_playing : ℕ → Table G → Table G × Result
  keep_playing id t =
      if not (is_some t.showdown)
      then (t, err no_showdown)
      else if not (is_some (lookup id t.players))
      then (t, err player_not_found)
      else (
        record t {
          next_game_players =
              if contains t.next_game_players id
              then t.next_game_players
              else id ∷ t.next_game_players;
        },
        ok keeps_playing,
      )
