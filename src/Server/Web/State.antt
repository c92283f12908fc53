-- ===== src/Server/Web/State.antt =====
-- The three tables of the web server and its handlers, Server/src/web.rs: `list_games`, `game_state`,
-- `join_game` and `player_action`.
use rust_poker.Base.{ℕ, ◌+◌, List, [], ◌∷◌, Option, none, some, String, if◌then◌else◌, is_empty}
use rust_poker.Base.Text.{Text, codes, same_text, trim}
use rust_poker.Base.Text.Chars.{to_string}
use rust_poker.Game.FiveCardDraw.{five_card_draw}
use rust_poker.Game.TexasHoldem.{texas_holdem}
use rust_poker.Game.SevenCardStud.{seven_card_stud}
use rust_poker.Player.{Player, Addr}
use rust_poker.Table
use rust_poker.Table.{Table, Players, Reply}
use rust_poker.Table.View.{TableView, player_view_state}
use rust_poker.Server.Commands.{Answer, accepted, rejected, Refusal}
use rust_poker.Server.Cookie.{
  player_id_from_cookie, session_player_id, session_cookie, expired_session_cookie,
}
use rust_poker.Server.Web.{run_action, join_table}

-- The variants of `WebTable`, by which the handlers choose a table.
pub data WebTable : Type 0 where
  holdem draw stud : WebTable

-- `WebState`; `updates` counts the messages to the browsers.
pub record WebState : Type 0 where
  pub holdem_table : Table texas_holdem
  pub draw_table : Table five_card_draw
  pub stud_table : Table seven_card_stud
  pub updates : ℕ

unfoldable pub new : WebState
new = record {
  holdem_table = Table.new;
  draw_table = Table.new;
  stud_table = Table.new;
  updates = 0;
}

-- `WebState::table`.
unfoldable pub table : Text → Option WebTable
table game =
    if same_text game (codes "TexasHoldem")
    then some holdem
    else if same_text game (codes "FiveCardDraw")
    then some draw
    else if same_text game (codes "SevenCardStud")
    then some stud
    else none

-- The sorted keys.
unfoldable pub list_games : List String
list_games = "FiveCardDraw" ∷ "SevenCardStud" ∷ "TexasHoldem" ∷ []

unfoldable pub notify : WebState → WebState
notify s = record s { updates = s.updates + 1 }

-- `WebTable::state`.
unfoldable pub state : WebTable → Option ℕ → WebState → TableView
state holdem viewer s = player_view_state viewer s.holdem_table
state draw viewer s = player_view_state viewer s.draw_table
state stud viewer s = player_view_state viewer s.stud_table

-- `WebTable::action`.
unfoldable pub action : WebTable → ℕ → ℕ → ℕ → Text → WebState → Option (WebState × Answer)
action holdem fuel now id command s = elim (run_action fuel now id command s.holdem_table) [
  | none ↦ none
  | some (t, a) ↦ some (record s { holdem_table = t }, a)
]
action draw fuel now id command s = elim (run_action fuel now id command s.draw_table) [
  | none ↦ none
  | some (t, a) ↦ some (record s { draw_table = t }, a)
]
action stud fuel now id command s = elim (run_action fuel now id command s.stud_table) [
  | none ↦ none
  | some (t, a) ↦ some (record s { stud_table = t }, a)
]

-- What a browser is answered: a status with the reason, or the state with the cookie that is set.
pub data Response : Type 0 where
  not_found : Response
  name_required : Response
  bad_request : Refusal → Response
  shown : TableView → Response
  done : Reply → TableView → Option Text → Response

-- An id in the query is taken before the cookie's.
abbrev pub viewer_id : Option ℕ → Option Text → Option ℕ
viewer_id (some id) cookie = some id
viewer_id none (some cookie) = player_id_from_cookie cookie
viewer_id none none = none

unfoldable pub game_state : Text → Option ℕ → Option Text → WebState → Response
unfolding table state
game_state game query cookie s = elim (table game) [
  | none ↦ not_found
  | some k ↦ shown (state k (viewer_id query cookie) s)
]

-- The cookie of a command: expired on leaving.
abbrev pub cookie_of_command : Text → Option Text
cookie_of_command command =
    if same_text (trim command) (codes "LEAVE") then some expired_session_cookie else none

unfoldable pub player_action : ℕ → ℕ → Text → ℕ → Text → WebState → Option (WebState × Response)
unfolding table state action notify
player_action fuel now game id command s = elim (table game) [
  | none ↦ some (s, not_found)
  | some k ↦ elim (action k fuel now id command s) [
    | none ↦ none
    | some (s', rejected e) ↦ some (s', bad_request e)
    | some (s', accepted r) ↦
        some (notify s', done r (state k (some id) s') (cookie_of_command command))
  ]
]

module _ (insert : ℕ → Addr → Players → Players) (fetch : ℕ → Option Player) where
  -- `WebTable::join`.
  unfoldable pub join : WebTable → ℕ → String → Option ℕ → WebState → Option (WebState × Answer)
  join holdem id name wallet s = elim (join_table insert (fetch id) id name wallet s.holdem_table) [
    | none ↦ none
    | some (t, a) ↦ some (record s { holdem_table = t }, a)
  ]
  join draw id name wallet s = elim (join_table insert (fetch id) id name wallet s.draw_table) [
    | none ↦ none
    | some (t, a) ↦ some (record s { draw_table = t }, a)
  ]
  join stud id name wallet s = elim (join_table insert (fetch id) id name wallet s.stud_table) [
    | none ↦ none
    | some (t, a) ↦ some (record s { stud_table = t }, a)
  ]

  -- `bytes` are those of a new uuid, for a browser with no session.
  unfoldable pub join_game :
      List ℕ → Text → Option Text → Text → Option ℕ → WebState → Option (WebState × Response)
  unfolding table state join notify
  join_game bytes game cookie name wallet s = elim (table game) [
    | none ↦ some (s, not_found)
    | some k ↦
        if is_empty (trim name)
        then some (s, name_required)
        else let (id, set_cookie) = session_player_id bytes cookie in
          elim (join k id (to_string name) wallet s) [
            | none ↦ none
            | some (s', rejected e) ↦ some (s', bad_request e)
            | some (s', accepted r) ↦
                let sent = if set_cookie then some (session_cookie id) else none in
                some (notify s', done r (state k (some id) s') sent)
          ]
  ]
