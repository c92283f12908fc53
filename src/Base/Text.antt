-- ===== src/Base/Text.antt =====
-- Texts as lists of code points, and what the source takes from `str` of Rust: trimming, splitting,
-- parsing and printing of numbers.
pub mod Numbers
pub mod Pieces
pub mod Chars
pub mod Words
use Prim.Native.Char.{code}
use Prim.Native.Nat.{ℕ, zero, suc, ◌+◌, ◌-◌, ◌*◌, ◌/◌, ◌%◌}
use Prim.Native.String
use Prim.Native.String.{String}
use mathlib.Core.Bool.{Bool, true, false, not, ◌&&◌, ◌||◌}
use mathlib.Core.List.{List, [], ◌∷◌, ◌++◌, reverse}
use mathlib.Core.Option.{Option, none, some}
use rust_poker.Base.Tests.{◌==◌, if◌then◌else◌, ltb, leb}
use rust_poker.Base.Lists.{is_empty, filter}

abbrev pub Text : Type 0
Text = List ℕ

-- The code points of a literal.
abbrev pub codes : String → Text
codes String.[] = []
codes (String.◌∷◌ c s) = code c ∷ codes s

-- Equality of texts.
abbrev pub same_text : Text → Text → Bool
same_text [] [] = true
same_text [] (d ∷ t) = false
same_text (c ∷ s) [] = false
same_text (c ∷ s) (d ∷ t) = (c == d) && same_text s t

-- `char::is_whitespace`.
abbrev pub is_whitespace : ℕ → Bool
is_whitespace c =
    (leb 9 c && leb c 13)
    || (c == 32)
    || (c == 0x85)
    || (c == 0xa0)
    || (c == 0x1680)
    || (leb 0x2000 c && leb c 0x200a)
    || (c == 0x2028)
    || (c == 0x2029)
    || (c == 0x202f)
    || (c == 0x205f)
    || (c == 0x3000)

unfoldable pub trim_start : Text → Text
trim_start [] = []
trim_start (c ∷ s) = if is_whitespace c then trim_start s else c ∷ s

-- `str::trim`.
unfoldable pub trim : Text → Text
unfolding trim_start
trim s = reverse (trim_start (reverse (trim_start s)))

-- A character put before the first of the pieces.
abbrev pub extend : ℕ → List Text → List Text
extend c [] = (c ∷ []) ∷ []
extend c (s ∷ later) = (c ∷ s) ∷ later

-- The pieces between the characters that `mark` picks out.
unfoldable pub split_where : (ℕ → Bool) → Text → List Text
split_where mark [] = [] ∷ []
split_where mark (c ∷ s) =
    let rest = split_where mark s in if mark c then [] ∷ rest else extend c rest

-- `str::split` at a character.
unfoldable pub split : ℕ → Text → List Text
unfolding split_where
split mark = split_where (λ c. c == mark)

-- `str::split_whitespace`: the pieces that are not empty.
unfoldable pub split_whitespace : Text → List Text
unfolding split_where
split_whitespace s = filter (λ piece. not (is_empty piece)) (split_where is_whitespace s)

-- `str::split_once` at a character.
unfoldable pub split_once : ℕ → Text → Option (Text × Text)
split_once mark [] = none
split_once mark (c ∷ s) =
    if c == mark
    then some ([], s)
    else elim (split_once mark s) [ none ↦ none | some (before, after) ↦ some (c ∷ before, after) ]

-- `from_str` of an unsigned type with values up to `limit`: digits after an optional plus sign.
unfoldable pub parse_digits : ℕ → ℕ → Text → Option ℕ
parse_digits limit n [] = some n
parse_digits limit n (c ∷ s) =
    let m = n * 10 + (c - b'0') in
    let rest = parse_digits limit m s in
    if leb b'0' c && leb c b'9' && leb m limit then rest else none

unfoldable pub parse : ℕ → Text → Option ℕ
unfolding parse_digits
parse limit [] = none
parse limit (c ∷ []) = parse_digits limit 0 (c ∷ [])
parse limit (c ∷ d ∷ s) =
    if c == b'+' then parse_digits limit 0 (d ∷ s) else parse_digits limit 0 (c ∷ d ∷ s)

-- The decimal digits of a number below ten to the power `fuel + 1`.
unfoldable pub digits : ℕ → ℕ → Text
digits zero n = (b'0' + n % 10) ∷ []
digits (suc fuel) n =
    let rest = digits fuel (n / 10) in
    if ltb n 10 then (b'0' + n) ∷ [] else rest ++ (b'0' + n % 10) ∷ []

-- `to_string` of a `u64`, which has at most 20 digits.
unfoldable pub print : ℕ → Text
unfolding digits
print n = digits 19 n
