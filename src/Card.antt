-- ===== src/Card.antt =====
-- Poker/src/card.rs: a card is one byte, the suit in bits 4 and 5, the value in bits 0 to 3 and
-- the face-up mark in bit 6. A byte is a number below 256.
pub mod Laws
use Prim.Native.String.{String, ◌++◌}
use text.Mathlib.Text.{◌==◌ as str_eq}
use rust_poker.Base.{
  ℕ, ◌*◌, ◌/◌, ◌%◌, ◌^◌, ◌-◌, ◌+◌, Bool, not, ◌&&◌, ◌||◌, bit_and, bit_or, bit_xor, ◌==◌, leb, ltb,
  if◌then◌else◌,
}

-- `x << k` and `x >> k` on a byte.
abbrev pub shl8 : ℕ → ℕ → ℕ
shl8 x k = (x * 2 ^ k) % 256

abbrev pub shr8 : ℕ → ℕ → ℕ
shr8 x k = x / 2 ^ k

unfoldable pub encode_card : ℕ → ℕ → ℕ
encode_card suit value = bit_or (shl8 suit 4) value

unfoldable pub decode_card : ℕ → ℕ × ℕ
decode_card encoded = (bit_and (shr8 encoded 4) 0x3, bit_and encoded 0xF)

pub record Card : Type 0 where
  pub byte : ℕ

unfoldable pub new : Card
new = record { byte = 0 }

unfoldable pub from_encoded : ℕ → Card
from_encoded card = record { byte = card }

unfoldable pub from_suit_value : ℕ → ℕ → Card
from_suit_value suit value = record { byte = bit_or (shl8 suit 4) value }

unfoldable pub decode : Card → ℕ × ℕ
decode c = (bit_and (shr8 c.byte 4) 0x3, bit_and c.byte 0xF)

unfoldable pub decode_f : Card → Bool × ℕ × ℕ
decode_f c = (not (shr8 c.byte 6 == 0), bit_and (shr8 c.byte 4) 0x3, bit_and c.byte 0xF)

unfoldable pub face_up : Card → Bool
face_up c = not (shr8 c.byte 6 == 0)

unfoldable pub flip : Card → Card
flip c = record { byte = bit_xor c.byte (shl8 1 6) }

unfoldable pub flip_up : Card → Card
flip_up c = record { byte = bit_or c.byte (shl8 1 6) }

unfoldable pub flip_down : Card → Card
flip_down c = record { byte = bit_and c.byte 0x3F }

unfoldable pub suit_text : ℕ → String
suit_text suit =
    if suit == 0
    then "♦"
    else if suit == 1
    then "♣"
    else if suit == 2
    then "♥"
    else if suit == 3
    then "♠"
    else "?"

-- `u8::to_string` below 100.
abbrev digit : ℕ → String
digit d =
    if d == 0
    then "0"
    else if d == 1
    then "1"
    else if d == 2
    then "2"
    else if d == 3
    then "3"
    else if d == 4
    then "4"
    else if d == 5
    then "5"
    else if d == 6
    then "6"
    else if d == 7
    then "7"
    else if d == 8
    then "8"
    else "9"

abbrev decimal : ℕ → String
decimal n = if ltb n 10 then digit n else digit (n / 10) ++ digit (n % 10)

unfoldable pub value_text : ℕ → String
value_text value =
    if value == 1
    then "A"
    else if leb 2 value && leb value 10
    then decimal value
    else if value == 11
    then "J"
    else if value == 12
    then "Q"
    else if value == 13
    then "K"
    else if value == 14
    then "A"
    else "?"

-- `Display::fmt`.
unfoldable pub to_string : Card → String
unfolding decode suit_text value_text
to_string c =
    let suit = suit_text (decode c).0 in
    let value = value_text (decode c).1 in
    if str_eq value "?" || str_eq suit "?" then "??" else suit ++ value
