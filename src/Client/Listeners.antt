-- ===== src/Client/Listeners.antt =====
-- The listeners' threads of Client/src/lib.rs: starting, stopping and reconnecting. A thread that is
-- told to stop ends, as its loop looks at `running` after every read.
use rust_poker.Base.{◌≡◌, refl, Option, Bool, true, false, if◌then◌else◌}
use rust_poker.Base.Text.{Text, codes}
use rust_poker.Client.{
  Client, Json, contains_text, update_player_from_response, games_from_response, send_command,
}

unfoldable pub start_tcp_listener : Client → Client
start_tcp_listener c = if c.tcp_listener then c else record c { tcp_listener = true }

unfoldable pub start_udp_listener : Client → Client
start_udp_listener c = if c.udp_listener then c else record c { udp_listener = true }

unfoldable pub start_listeners : Client → Client
unfolding start_tcp_listener start_udp_listener
start_listeners c = start_udp_listener (start_tcp_listener c)

unfoldable pub stop_listeners : Client → Client
stop_listeners c =
    let told = record c { running = false } in
    let joined = record told { tcp_listener = false; udp_listener = false } in
    record joined { running = true }

-- `connected` tells whether `do_reconnect` has succeeded.
unfoldable pub reconnect_to : Bool → Client → Client
unfolding start_listeners stop_listeners
reconnect_to connected c =
    let stopped = stop_listeners (record c { reconnecting = true }) in
    let result = if connected then start_listeners stopped else stopped in
    record result { reconnecting = false }

module _ (J : Json) where
  -- What `listen_for_tcp` does with what it reads. A state of the game is only shown.
  unfoldable pub on_tcp : Text → Client → Client
  unfolding contains_text update_player_from_response games_from_response
  on_tcp response c =
      if contains_text (codes "[UPDATE]") response
      then update_player_from_response J response c
      else if contains_text (codes "[GAMESTATE]") response
      then c
      else if contains_text (codes "[GAMES]") response
      then games_from_response J response c
      else c

  -- What `listen_for_udp` does with a message; `answer` is the server's to the request for an update.
  unfoldable pub on_udp : Text → Option Text → Client → Client
  unfolding contains_text send_command
  on_udp message answer c =
      if contains_text (codes "[UPDATED]") message
      then (send_command J (codes "UPDATE") answer c).0
      else c

-- After a reconnection the client runs and is not reconnecting, and both listeners are there exactly
-- if it has succeeded; what the player has is as before.
pub reconnect_to-listeners :
    (connected : Bool) (c : Client)
    → ((reconnect_to connected c).running ≡ true)
      × ((reconnect_to connected c).reconnecting ≡ false)
      × ((reconnect_to connected c).tcp_listener ≡ connected)
      × ((reconnect_to connected c).udp_listener ≡ connected)
      × ((reconnect_to connected c).my ≡ c.my)
unfolding reconnect_to
reconnect_to-listeners true c = (refl, refl, refl, refl, refl)
reconnect_to-listeners false c = (refl, refl, refl, refl, refl)
