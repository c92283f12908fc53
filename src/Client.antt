-- ===== src/Client.antt =====
-- The terminal client, Client/src/lib.rs: what it sends and what it reads from an answer. Sockets and
-- the terminal are arguments: the lines that are typed, and the answer of the server. serde_json is
-- the section's `Json`.
pub mod Input
pub mod Lobby
pub mod Listeners
pub mod Agreement
use rust_poker.Base.{
  ℕ, zero, suc, ◌+◌, ◌-◌, ◌%◌, ◌^◌, List, [], ◌∷◌, ◌++◌, Option, none, some, Bool, true, false, not,
  ◌&&◌, if◌then◌else◌, ◌==◌, ltb, leb, length, map, drop,
}
use rust_poker.Base.Text.{Text, codes, same_text, trim, extend, print}
use rust_poker.Player.{Player}

abbrev pub starts_with : Text → Text → Bool
starts_with [] s = true
starts_with (c ∷ m) [] = false
starts_with (c ∷ m) (d ∷ s) = (c == d) && starts_with m s

-- `str::contains`.
unfoldable pub contains_text : Text → Text → Bool
contains_text m [] = starts_with m []
contains_text m (c ∷ s) = elim (starts_with m (c ∷ s)) [ true ↦ true | false ↦ contains_text m s ]

abbrev pub ends_with_newline : Text → Bool
ends_with_newline [] = false
ends_with_newline (c ∷ []) = c == b'\n'
ends_with_newline (c ∷ d ∷ s) = ends_with_newline (d ∷ s)

-- The pieces between the occurrences of a marker; `skip` characters of it are still to be passed.
unfoldable pub pieces_from : Text → ℕ → Text → List Text
pieces_from m skip [] = [] ∷ []
pieces_from m (suc skip) (c ∷ s) = pieces_from m skip s
pieces_from m zero (c ∷ s) = elim (starts_with m (c ∷ s)) [
  | true ↦ [] ∷ pieces_from m (length m - 1) s
  | false ↦ extend c (pieces_from m 0 s)
]

-- What the loops over `find` take out of an answer: the pieces behind each marker, trimmed.
unfoldable pub updates : Text → Text → List Text
unfolding pieces_from
updates m s = map trim (drop 1 (pieces_from m 0 s))

-- A set of names as a list.
abbrev pub has_text : List Text → Text → Bool
has_text [] s = false
has_text (t ∷ ts) s = elim (same_text t s) [ true ↦ true | false ↦ has_text ts s ]

-- The state of the client that its commands and listeners share; `sent` is what it has tried to write
-- to the server, the last line first.
pub record Client : Type 0 where
  pub my : Player
  pub sent : List Text
  pub available_games : List Text
  pub running : Bool
  pub reconnecting : Bool
  pub tcp_listener : Bool
  pub udp_listener : Bool

-- `serde_json`: parsing, and the accessors of a value.
pub record Json : Type 1 where
  pub Value : Type 0
  pub from_str : Text → Option Value
  pub get : Text → Value → Option Value
  pub as_u64 : Value → Option ℕ
  pub as_array : Value → Option (List Value)
  pub as_str : Value → Option Text

module _ (J : Json) where
  unfoldable pub number_of : Text → J.Value → Option ℕ
  number_of key json = elim (J.get key json) [ none ↦ none | some v ↦ J.as_u64 v ]

  -- `filter_map` into bytes.
  unfoldable pub bytes_of : List J.Value → List ℕ
  bytes_of [] = []
  bytes_of (v ∷ vs) = elim (J.as_u64 v) [ none ↦ bytes_of vs | some n ↦ (n % 256) ∷ bytes_of vs ]

  abbrev pub array_of : Text → J.Value → Option (List J.Value)
  array_of key json = elim (J.get key json) [ none ↦ none | some v ↦ J.as_array v ]

  abbrev pub with_wallet : Option ℕ → Player → Player
  with_wallet none p = p
  with_wallet (some wallet) p = record p { wallet = wallet }

  abbrev pub with_bet : Option ℕ → Player → Player
  with_bet none p = p
  with_bet (some bet) p = record p { bet = bet }

  abbrev pub with_hand : Option (List J.Value) → Player → Player
  with_hand none p = p
  with_hand (some vs) p = record p { hand = record { cards = bytes_of vs } }

  unfoldable pub update_player : Text → Player → Player
  unfolding number_of bytes_of
  update_player text p = elim (J.from_str text) [
    | none ↦ p
    | some json ↦
        with_hand (array_of (codes "hand") json) (
          with_bet (number_of (codes "bet") json) (with_wallet (number_of (codes "wallet") json) p))
  ]

  unfoldable pub update_all : List Text → Player → Player
  unfolding update_player
  update_all [] p = p
  update_all (text ∷ texts) p = update_all texts (update_player text p)

  -- An answer with no marker has no piece behind one.
  unfoldable pub update_player_from_response : Text → Client → Client
  unfolding updates update_all
  update_player_from_response response c = record c {
    my = update_all (updates (codes "[UPDATE]") response) c.my;
  }

  unfoldable pub insert_names : List J.Value → List Text → List Text
  insert_names [] names = names
  insert_names (v ∷ vs) names = elim (J.as_str v) [
    | none ↦ insert_names vs names
    | some name ↦ insert_names vs (if has_text names name then names else names ++ name ∷ [])
  ]

  unfoldable pub games_in : Text → List Text → List Text
  unfolding insert_names
  games_in text names = elim (J.from_str text) [
    | none ↦ names
    | some json ↦ elim (array_of (codes "games") json) [
      | none ↦ names
      | some vs ↦ insert_names vs names
    ]
  ]

  unfoldable pub games_in_all : List Text → List Text → List Text
  unfolding games_in
  games_in_all [] names = names
  games_in_all (text ∷ texts) names = games_in_all texts (games_in text names)

  unfoldable pub games_from_response : Text → Client → Client
  unfolding contains_text updates games_in_all
  games_from_response response c =
      if not (contains_text (codes "[GAMES]") response)
      then c
      else record c { available_games = games_in_all (updates (codes "[GAMES]") response) [] }

  -- A command as a line. `answer` is what is read from the server, `none` if writing or reading fails;
  -- the result is `none` where the code returns an error.
  unfoldable pub send_command : Text → Option Text → Client → Client × Option Text
  unfolding update_player_from_response contains_text
  send_command command answer c =
      let line = if ends_with_newline command then command else command ++ b'\n' ∷ [] in
      let c' = record c { sent = line ∷ c.sent } in
      elim answer [
        | none ↦ (c', none)
        | some response ↦
            if contains_text (codes "NOT YOUR TURN") response
            then (c', none)
            else (update_player_from_response response c', some response)
      ]
