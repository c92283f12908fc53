-- ===== src/Lib.antt =====
-- Rust-poker: a verification library for the rules of poker, the table of its server, and the
-- protocol between server and client.
--
-- The program has three crates. Poker holds cards, decks, hands, players and three games behind the
-- trait `Game`. Server holds `Table`, which seats players in two rings of nodes, takes their bets,
-- drives a game from round to round and pays out the pot. Around it stand the thread that serves a
-- client over TCP, the web server with its session cookies, the thread that watches a web table, and
-- the manager that gives each game its port. Client is a terminal program that turns what is typed
-- into command lines and reads the server's answers.
--
-- Which file models what:
--   Base          tests, lists, stable sort and greatest element, as Rust's standard library has them;
--                 Base/Text for `trim`, `split`, `split_whitespace`, `split_once`, `parse` and printing
--   Card, Deck    Poker/src/card.rs, Poker/src/deck.rs: bytes for cards, `deal` and `deal_face_up`
--   Hand          Poker/src/hand.rs: `Hand`, with Hand/Rank for `HandRank` and its `Ord`, Hand/Straight
--                 for `check_straight`, Hand/Evaluate for `evaluate` and `count_values`, Hand/Text for
--                 `Display`, Hand/Used for `cards_used` and `cards_used_against`
--   Player, Store Poker/src/player.rs: the records; the `Arc<Mutex<PlayerNode>>` pointers are addresses
--                 in a store of nodes, `Arc::ptr_eq` is equality of addresses
--   Game          Poker/src/game.rs and Poker/src/games: the trait as a record of operations that the
--                 table takes as a parameter, and its three implementations
--   Table         Server/src/lib.rs: the state, messages and saving; Table/Bets for `raise`, `all_in`
--                 and `check`; Table/Pots for `pay_showdown_pots`; Table/Finish for `end_game` and
--                 `fold`; Table/Seats for `rebuild_full_ring`, `add_player` and `remove_player`;
--                 Table/Rounds for `start_game`, `advance_turn` and the rounds; Table/Expiry for the time-out
--                 and for players who do not play on; Table/View for `player_view_state`, and
--                 Table/View/Snapshot for `snapshot_state` and the value of `broadcast_state`;
--                 Table/Safe for the invariant of a table and Table/Steps for its operations in any order
--   Server        Server/Commands for the commands of the player on turn, which both kinds of clients
--                 share; Server/Clients for a round of `handle_game_client`, Server/src/clienthandler.rs;
--                 Server/Cookie for the session cookie, Server/Web for `run_action`, `join_table` and
--                 the thread of `new_web_table`, Server/Web/State for the handlers of Server/src/web.rs;
--                 Server/Manager for the registry of Server/src/servermanager.rs and the lobby's answer
--   Client        Client/src/lib.rs: reading answers and sending commands; Client/Input for
--                 `take_input` and the command lines, Client/Lobby for `take_lobby_input` and
--                 `discover_lobby`, Client/Listeners for the listeners; Client/Agreement for what the
--                 server makes of the client's lines
--   Tests         examples at concrete inputs
--
-- Numbers: a byte and a `u64` are natural numbers with the wrap-around of a release build written
-- out. Theorems that need a sum to fit into 64 bits say so. Errors are values, with a constructor for
-- each text. A call that does not return, by a panic or by a lock that it takes twice, is `none`.
-- Texts that are parsed are lists of character codes.
--
-- Fuel: the loops around the rings follow pointers and take fuel, since a list of pointers need not
-- lead back. On a ring each loop takes one step for each player, so fuel above the number of players
-- is enough, and the theorems ask for that much, for `start_game` and `advance_turn` as a whole too.
-- `finish_remaining_rounds` goes through its 20 rounds as the source does.
--
-- Parameters: the shuffle of the rand crate; the random bytes of the uuid crate; the order in which
-- the hash map of players is walked, which is any list of its entries, and where it places a new one;
-- whether a stream takes a write, and what is read from a socket; the rows that the database answers;
-- the clock, read once per call; serde_json's parser and accessors. Writes to the database are kept
-- in the table's log.
--
-- Steps: a request of a browser is one step, and so is each part of the watching thread's round that
-- holds the lock, so these are interleaved in every order. Within `run_action` and a client's round no
-- other request comes between two locks.
--
-- Not modelled: sockets, threads, routing, the websocket, the text of JSON values, and the debug texts
-- of tables, games and decks; Server/src/db.rs, Server/src/main.rs and Client/src/main.rs, which are
-- I/O; the display of a game's state and the reconnection itself in Client. A lock is taken as free
-- unless the same call holds it.
pub mod Base
pub mod Card
pub mod Deck
pub mod Hand
pub mod Player
pub mod Store
pub mod Game
pub mod Table
pub mod Server
pub mod Client
pub mod Tests
