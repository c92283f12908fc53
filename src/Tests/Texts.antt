-- ===== src/Tests/Texts.antt =====
-- Examples for the session cookie and for the lines between client and server.
use rust_poker.Base.{ℕ, ◌<◌, ◌≡◌, refl, List, [], ◌∷◌, ◌++◌, none, some, false, arith}
use rust_poker.Base.Text.{codes, print, trim, split_once, trim_start}
use rust_poker.Base.Text.Pieces.{join}
use rust_poker.Game.FiveCardDraw
use rust_poker.Game.FiveCardDraw.{replace_cards}
use rust_poker.Server.Cookie.{
  player_id_from_cookie, session_part, session_cookie, session_player_id, new_player_id,
  max_safe_js_integer,
}
use rust_poker.Server.Cookie.Bounds.{new_player_id_bounds, session_player_id-again}
use rust_poker.Server.Cookie.RoundTrip.{session, IsForeign, player_id_from_cookie-session}
use rust_poker.Client.Agreement.{
  words_sent, bet_of-raise_line, client_action-replace_line, join_request-join_line,
}
use rust_poker.Client.Input.{raise_line, replace_line, join_line}
use rust_poker.Server.Clients.Rounds.{join_request}
use rust_poker.Server.Commands.{raises, bet_of}
use rust_poker.Tests.{ring_node}

theme-IsForeign : IsForeign (codes "theme=dark")
unfolding session_part trim split_once trim_start
theme-IsForeign = (omega arith, refl)

-- The header `theme=dark; poker_session=42; lang=en`.
player_id_from_cookie-session_example :
    player_id_from_cookie
      (join b';' (codes "theme=dark" ∷ session (b' ' ∷ []) 42 ∷ codes " lang=en" ∷ []))
    ≡ some 42
player_id_from_cookie-session_example =
    player_id_from_cookie-session (codes "theme=dark" ∷ []) (b' ' ∷ []) 42 (codes " lang=en" ∷ [])
      (theme-IsForeign, tt) (omega arith, tt) (refl, tt) (omega arith) (omega arith)

abbrev uuid : List ℕ
uuid = 1 ∷ 2 ∷ 3 ∷ 4 ∷ 5 ∷ 6 ∷ 7 ∷ 8 ∷ 9 ∷ 10 ∷ 11 ∷ 12 ∷ 13 ∷ 14 ∷ 15 ∷ 16 ∷ []

new_player_id_bounds_example : (0 < new_player_id uuid) × (new_player_id uuid < max_safe_js_integer)
new_player_id_bounds_example = new_player_id_bounds uuid

session_player_id-again_example :
    session_player_id [] (some (session_cookie (session_player_id uuid none).0))
    ≡ ((session_player_id uuid none).0, false)
session_player_id-again_example = session_player_id-again uuid [] none

bet_of-raise_line_example : bet_of (words_sent (raise_line 250)) ≡ raises 250
bet_of-raise_line_example = bet_of-raise_line 250 (omega arith)

abbrev drawing : FiveCardDraw.State
drawing = record { round = 1; deck = record { cards = 11 ∷ 12 ∷ 13 ∷ [] } }

client_action-replace_line_example :
    FiveCardDraw.client_action (ring_node none 0) (words_sent (replace_line (2 ∷ 18 ∷ []))) drawing
    ≡ replace_cards (ring_node none 0) (2 ∷ 18 ∷ []) drawing
client_action-replace_line_example =
    client_action-replace_line (ring_node none 0) (2 ∷ 18 ∷ []) drawing refl
      (omega arith, (omega arith, tt))

join_request-join_line_example :
    (join_request (words_sent (join_line 7 (codes "Ada") 1000)) ≡ some (print 7, codes "Ada"))
    × (join_request (words_sent (join_line 7 (codes "Ada" ++ b' ' ∷ codes "Byron") 1000)) ≡ none)
join_request-join_line_example =
    join_request-join_line 7 1000 (codes "Ada") (codes "Byron") (refl, ground arith)
      (refl, ground arith)
