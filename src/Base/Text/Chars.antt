-- ===== src/Base/Text/Chars.antt =====
-- From code points to characters.
use Prim.Native.Char.{Char, char, nul}
use Prim.Native.Nat.{ℕ, compare, Ordering}
use Prim.Native.String.{String}
use mathlib.Core.List.{[], ◌∷◌}
use mathlib.Core.Path.{◌≡◌, refl}
use rust_poker.Base.Text.{Text}

high_scalar :
    (n : ℕ) (o p : Ordering)
    → compare n 55296 ≡ Ordering.gt
    → compare 57343 n ≡ o
    → compare n 1114112 ≡ p
    → Char
high_scalar n Ordering.lt Ordering.lt d e f = char n (rw (d, e, f) tt)
high_scalar n _ _ d e f = nul

low_scalar : (n : ℕ) (o : Ordering) → compare n 55296 ≡ o → Char
low_scalar n Ordering.lt e = char n (rw (e) tt)
low_scalar n Ordering.eq e = nul
low_scalar n Ordering.gt e = high_scalar n (compare 57343 n) (compare n 1114112) e refl refl

-- The character of a code point. The code points of a text are all scalar values.
unfoldable pub to_char : ℕ → Char
unfolding low_scalar high_scalar
to_char n = low_scalar n (compare n 55296) refl

-- A text as a string.
unfoldable pub to_string : Text → String
unfolding to_char
to_string [] = ""
to_string (c ∷ s) = String.◌∷◌ (to_char c) (to_string s)

to_string_check : to_string (82 ∷ 97 ∷ 233 ∷ 0x1f0a1 ∷ []) ≡ "Raé🂡"
unfolding to_string
to_string_check = refl
