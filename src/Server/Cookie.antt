-- ===== src/Server/Cookie.antt =====
-- The session cookie of Server/src/web.rs: the ids of browsers' players. The random bytes of the
-- uuid crate are an argument.
pub mod RoundTrip
pub mod Bounds
use rust_poker.Base.{
  ℕ, zero, ◌+◌, ◌-◌, ◌*◌, ◌%◌, ◌^◌, List, [], ◌∷◌, ◌++◌, Option, none, some, Bool, true, false,
  if◌then◌else◌, ◌==◌, ltb, take,
}
use rust_poker.Base.Text
use rust_poker.Base.Text.{Text, codes, same_text, trim, split, split_once, print}

abbrev pub u64_max : ℕ
u64_max = 2 ^ 64 - 1

abbrev pub positive : Option ℕ → Option ℕ
positive none = none
positive (some id) = if ltb 0 id then some id else none

-- The closure of `find_map`, on what `split_once` gives.
abbrev pub session_value : Option (Text × Text) → Option ℕ
session_value none = none
session_value (some (name, value)) =
    if same_text name (codes "poker_session") then positive (Text.parse u64_max value) else none

-- What one part of the header says about the session.
unfoldable pub session_part : Text → Option ℕ
session_part part = session_value (split_once b'=' (trim part))

-- `filter_map` and `find_map` over the parts.
unfoldable pub first_session : List Text → Option ℕ
unfolding session_part
first_session [] = none
first_session (part ∷ parts) = elim (session_part part) [
  | none ↦ first_session parts
  | some id ↦ some id
]

unfoldable pub player_id_from_cookie : Text → Option ℕ
unfolding first_session
player_id_from_cookie cookie_header = first_session (split b';' cookie_header)

abbrev pub max_safe_js_integer : ℕ
max_safe_js_integer = 9007199254740991

-- `u64::from_be_bytes`, after the bytes read so far.
unfoldable pub from_be_bytes : ℕ → List ℕ → ℕ
from_be_bytes n [] = n
from_be_bytes n (b ∷ bytes) = from_be_bytes (n * 256 + b) bytes

-- From the bytes of a new uuid.
unfoldable pub new_player_id : List ℕ → ℕ
unfolding from_be_bytes
new_player_id bytes =
    let id = from_be_bytes 0 (take 8 bytes) % max_safe_js_integer in if id == 0 then 1 else id

-- The id, and whether the cookie has to be set. The header is `none` if it is missing or not text.
unfoldable pub session_player_id : List ℕ → Option Text → ℕ × Bool
unfolding player_id_from_cookie new_player_id
session_player_id bytes none = (new_player_id bytes, true)
session_player_id bytes (some header) = elim (player_id_from_cookie header) [
  | none ↦ (new_player_id bytes, true)
  | some id ↦ (id, false)
]

unfoldable pub session_cookie : ℕ → Text
session_cookie player_id =
    codes "poker_session=" ++ (print player_id ++ codes "; Path=/; HttpOnly; SameSite=Lax")

abbrev pub expired_session_cookie : Text
expired_session_cookie = codes "poker_session=; Path=/; Max-Age=0; HttpOnly; SameSite=Lax"
