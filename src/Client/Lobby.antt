-- ===== src/Client/Lobby.antt =====
-- The choice of a game in the lobby, `take_lobby_input`, and the message that tells where the lobby is,
-- `discover_lobby`, of Client/src/lib.rs. `ip` is the server's address.
use rust_poker.Base.{
  ℕ, zero, suc, ◌-◌, ◌%◌, ◌^◌, List, [], ◌∷◌, ◌++◌, Option, none, some, false, Ordering, compare,
  if◌then◌else◌, ◌==◌, ◌≡◌, refl, ap, ◌∙◌, All-append, All-imp, ◌≢◌, arith,
}
use rust_poker.Base.Sort.{sort_by}
use rust_poker.Base.Text
use rust_poker.Base.Text.{Text, codes, is_whitespace, trim, print, split}
use rust_poker.Base.Text.Numbers.{IsDigit, print-digits}
use rust_poker.Base.Text.Pieces.{IsFree, IsSolid, split-join, trim-IsSolid}
use rust_poker.Client.{Client, Json, starts_with, contains_text, updates, number_of, send_command}
use rust_poker.Client.Input.{u64_max}

-- The order of strings.
abbrev pub compare_text : Text → Text → Ordering
compare_text [] [] = Ordering.eq
compare_text [] (d ∷ t) = Ordering.lt
compare_text (c ∷ s) [] = Ordering.gt
compare_text (c ∷ s) (d ∷ t) = elim (compare c d) [
  | Ordering.lt ↦ Ordering.lt
  | Ordering.gt ↦ Ordering.gt
  | Ordering.eq ↦ compare_text s t
]

-- `games[i]`.
abbrev pub nth : List Text → ℕ → Option Text
nth [] i = none
nth (g ∷ gs) zero = some g
nth (g ∷ gs) (suc i) = nth gs i

-- To leave the program, or an address and a multicast group to connect to.
pub data Target : Type 0 where
  exit_program : Target
  connect_to : Text → Text → Target

-- What is typed as a number; 0 if it is none.
abbrev pub number_or_0 : Option ℕ → ℕ
number_or_0 none = 0
number_or_0 (some n) = n

module _ (J : Json) where
  unfoldable pub game_target : Text → Text → Option Target
  unfolding number_of
  game_target ip text = elim (J.from_str text) [
    | none ↦ none
    | some json ↦ elim (number_of J (codes "port") json) [
      | none ↦ none
      | some port ↦ elim (J.get (codes "multicast") json) [
        | none ↦ none
        | some v ↦ elim (J.as_str v) [
          | none ↦ none
          | some multicast ↦ some (connect_to (ip ++ b':' ∷ print (port % 2 ^ 16)) multicast)
        ]
      ]
    ]
  ]

  -- What the lobby answers to the name of a game.
  unfoldable pub game_info : Text → Option Text → Option Target
  unfolding contains_text updates game_target
  game_info ip none = none
  game_info ip (some response) =
      if contains_text (codes "[GAME_INFO]") response
      then elim (updates (codes "[GAME_INFO]") response) [
        | [] ↦ none
        | text ∷ texts ↦ game_target ip text
      ]
      else none

  -- `none`: no games, an invalid choice, or no information about the game.
  unfoldable pub take_lobby_input : Text → Text → Option Text → Client → Client × Option Target
  unfolding game_info send_command
  take_lobby_input ip line answer c =
      let games = sort_by compare_text c.available_games in
      let choice = number_or_0 (Text.parse u64_max (trim line)) in
      elim games [
        | [] ↦ (c, none)
        | g ∷ gs ↦
            if choice == 0 then (c, some exit_program) else elim (nth (g ∷ gs) (choice - 1)) [
              | none ↦ (c, none)
              | some game ↦
                  let (c', response) = send_command J game answer c in (c', game_info ip response)
            ]
      ]

-- Three parts, of which the last two are the address.
abbrev pub address_of : List Text → Option Text
address_of (word ∷ ip ∷ port ∷ []) = some (ip ++ b':' ∷ port)
address_of _ = none

-- The address in a message of the lobby.
unfoldable pub lobby_address : Text → Option Text
lobby_address message =
    if starts_with (codes "LOBBY:") message then address_of (split b':' (trim message)) else none

-- `format!("LOBBY:{}:{}", local_ip, port)` of Server/src/servermanager.rs.
unfoldable pub lobby_message : Text → ℕ → Text
lobby_message local_ip port = codes "LOBBY:" ++ (local_ip ++ b':' ∷ print port)

digit_solid : (c : ℕ) → IsDigit c → is_whitespace c ≡ false
digit_solid c h = ground (arith, h)

digit_free : (c : ℕ) → IsDigit c → c ≢ b':'
digit_free c h e = ground (arith, h, e)

-- A server that announces its lobby is found at its address and port, if the address is a text with
-- no blank and no colon, as one of version 4 is.
pub lobby_address-lobby_message :
    (local_ip : Text) (port : ℕ)
    → IsFree b':' local_ip
    → IsSolid local_ip
    → lobby_address (lobby_message local_ip port) ≡ some (local_ip ++ b':' ∷ print port)
unfolding lobby_address lobby_message
lobby_address-lobby_message local_ip port f s =
    let d = (print-digits port).1 in
    let solid : IsSolid (local_ip ++ b':' ∷ print port) =
      All-append _ local_ip (b':' ∷ print port) s (refl, All-imp digit_solid (print port) d) in
    ap (λ m. address_of (split b':' m))
      (trim-IsSolid [] (lobby_message local_ip port) tt
        (refl, (refl, (refl, (refl, (refl, (refl, solid)))))))
    ∙ ap address_of (
        split-join b':' (codes "LOBBY") (local_ip ∷ print port ∷ [])
          (omega arith, (f, (All-imp digit_free (print port) d, tt))))
