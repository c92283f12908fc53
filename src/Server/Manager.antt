-- ===== src/Server/Manager.antt =====
-- The registry of games of Server/src/servermanager.rs and what the lobby of
-- Server/src/clienthandler.rs answers. Threads and sockets are left out but for the ports: `bound` are
-- those that a listener holds. `none` stands for the panic of a port that is taken.
pub mod Ports
use rust_poker.Base.{
  ℕ, zero, suc, ◌+◌, ◌%◌, ◌^◌, List, [], ◌∷◌, ◌++◌, Option, none, some, Bool, true, false,
  if◌then◌else◌, ◌==◌, length, contains,
}
use rust_poker.Base.Text.{Text, codes, same_text, print, trim}

pub record TableInfo : Type 0 where
  pub port : ℕ
  pub multicast_addr : Text

pub record ServerManager : Type 0 where
  pub tables : List (Text × TableInfo)
  pub bound : List ℕ
  pub shut_down : Bool

unfoldable pub new : ServerManager
new = record { tables = []; bound = []; shut_down = false }

abbrev pub find : Text → List (Text × TableInfo) → Option TableInfo
find name [] = none
find name ((k, info) ∷ m) = if same_text k name then some info else find name m

-- `HashMap::insert`: the entry of a name that is there is replaced, another one is added.
unfoldable pub insert : Text → TableInfo → List (Text × TableInfo) → List (Text × TableInfo)
insert name info [] = (name, info) ∷ []
insert name info ((k, old) ∷ m) =
    if same_text k name then (k, info) ∷ m else (k, old) ∷ insert name info m

unfoldable pub remove : Text → List (Text × TableInfo) → List (Text × TableInfo)
remove name [] = []
remove name ((k, old) ∷ m) = if same_text k name then m else (k, old) ∷ remove name m

-- `remove` of a port that is no longer bound.
unfoldable pub unbind : ℕ → List ℕ → List ℕ
unbind port [] = []
unbind port (p ∷ ps) = if p == port then ps else p ∷ unbind port ps

-- The port and the multicast address of the next game.
abbrev pub port_of : ℕ → ℕ
port_of count = (10000 + count % 2 ^ 16) % 2 ^ 16

abbrev pub multicast_of : ℕ → Text
multicast_of count = codes "224.0.0." ++ print ((count + 1) % 256)

unfoldable pub register_game : Text → ServerManager → Option ServerManager
unfolding insert
register_game name s =
    let count = length s.tables in
    let port = port_of count in
    if contains s.bound port
    then none
    else some (record s {
      tables = insert name (record { port = port; multicast_addr = multicast_of count }) s.tables;
      bound = port ∷ s.bound;
    })

-- The listener's thread has ended when this returns.
unfoldable pub shutdown_game : Text → ServerManager → ServerManager
unfolding remove unbind
shutdown_game name s = elim (find name s.tables) [
  | none ↦ s
  | some info ↦ record s { tables = remove name s.tables; bound = unbind info.port s.bound }
]

abbrev pub names : List (Text × TableInfo) → List Text
names [] = []
names ((k, info) ∷ m) = k ∷ names m

unfoldable pub list_games : ServerManager → List Text
list_games s = names s.tables

unfoldable pub shutdown_each : List Text → ServerManager → ServerManager
unfolding shutdown_game
shutdown_each [] s = s
shutdown_each (name ∷ rest) s = shutdown_each rest (shutdown_game name s)

unfoldable pub shutdown_all : ServerManager → ServerManager
unfolding list_games shutdown_each
shutdown_all s = shutdown_each (list_games s) (record s { shut_down = true })

-- The lobby's answer to a line; `none` for the answer to a ping, which is none.
unfoldable pub lobby_answer : Text → ServerManager → Option Text
lobby_answer line s =
    if same_text (trim line) (codes "PONG") then none else elim (find (trim line) s.tables) [
      | none ↦ some (codes "[ERROR] Game not found\n")
      | some info ↦ some (
          codes "[GAME_INFO] {\"port\":"
          ++ (print info.port
              ++ (codes ",\"multicast\":\"" ++ (info.multicast_addr ++ codes "\"}\n"))))
    ]
