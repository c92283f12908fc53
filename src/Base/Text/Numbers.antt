-- ===== src/Base/Text/Numbers.antt =====
-- Printing and parsing numbers.
use Prim.Native.Nat.{ℕ, zero, suc, ◌+◌, ◌-◌, ◌*◌, ◌/◌, ◌%◌, ◌^◌, ◌≤◌, ◌<◌}
use mathlib.Core.Bool.{false, ◌&&◌}
use mathlib.Core.List.{[], ◌∷◌, ◌++◌, append_assoc, append-nil}
use mathlib.Core.Logic.{◌≢◌, inl, inr}
use mathlib.Core.Option.{none, some}
use mathlib.Core.Path.{◌≡◌, refl, sym, ap, ◌∙◌}
use native.Mathlib.Omega.{arith}
use rust_poker.Base.Tests.{Bool-cases, ◌==◌, if◌then◌else◌, ltb, ltb→lt, le→leb, leb}
use rust_poker.Base.Lists.{All, All-append}
use rust_poker.Base.Text.{Text, parse_digits, parse, digits, print}

-- The bytes of the ten digits.
abbrev pub IsDigit : ℕ → Type 0
IsDigit c = (b'0' ≤ c) × (c ≤ b'9')

-- Ten to the power `n + 1`.
abbrev pub power : ℕ → ℕ
power zero = 10
power (suc n) = 10 * power n

parse_digits-digit :
    (limit m d : ℕ) (s : Text)
    → d < 10
    → m * 10 + d ≤ limit
    → parse_digits limit m ((b'0' + d) ∷ s) ≡ parse_digits limit (m * 10 + d) s
unfolding parse_digits
parse_digits-digit limit m d s h l =
    let e : m * 10 + (b'0' + d - b'0') ≡ m * 10 + d = omega arith in
    rw
      (
        e,
        le→leb b'0' (b'0' + d) (omega arith),
        le→leb (b'0' + d) b'9' (omega arith),
        le→leb (m * 10 + d) limit l,
      )
      refl

parse_digits-first :
    (limit d : ℕ) (s : Text)
    → d < 10
    → d ≤ limit
    → parse_digits limit 0 ((b'0' + d) ∷ s) ≡ parse_digits limit d s
parse_digits-first limit d s h l =
    let e : 0 * 10 + d ≡ d = omega arith in
    parse_digits-digit limit 0 d s h (omega arith) ∙ ap (λ v. parse_digits limit v s) e

-- Reading the digits of a number goes on with that number.
pub parse_digits-digits :
    (limit fuel n : ℕ) (s : Text)
    → n < power fuel
    → n ≤ limit
    → parse_digits limit 0 (digits fuel n ++ s) ≡ parse_digits limit n s
unfolding digits
parse_digits-digits limit zero n s h l =
    let e : n % 10 ≡ n = omega arith in rw (e) (parse_digits-first limit n s h l)
parse_digits-digits limit (suc fuel) n s h l = elim (Bool-cases (ltb n 10)) [
  | inl c ↦ rw (c) (parse_digits-first limit n s (ltb→lt n 10 c) l)
  | inr c ↦
      let before : Text = digits fuel (n / 10) in
      let last : ℕ = b'0' + n % 10 in
      let e : n / 10 * 10 + n % 10 ≡ n = omega arith in
      rw (c) (
        ap (parse_digits limit 0) (append_assoc before (last ∷ []) s)
        ∙ parse_digits-digits limit fuel (n / 10) (last ∷ s) (omega (arith, h)) (omega (arith, l))
        ∙ parse_digits-digit limit (n / 10) (n % 10) s (omega arith) (omega (arith, l, e))
        ∙ ap (λ v. parse_digits limit v s) e)
]

-- The digits begin with a digit, and are digits.
pub digits-IsDigit : (fuel n : ℕ) → All IsDigit (digits fuel n)
unfolding digits
digits-IsDigit zero n = ((omega arith, omega arith), tt)
digits-IsDigit (suc fuel) n = elim (Bool-cases (ltb n 10)) [
  | inl c ↦ rw (c) ((omega arith, omega (arith, ltb→lt n 10 c)), tt)
  | inr c ↦ rw (c) (
      All-append IsDigit (digits fuel (n / 10)) _ (digits-IsDigit fuel (n / 10))
        ((omega arith, omega arith), tt))
]

append-not_empty : (s : Text) (c : ℕ) → s ++ c ∷ [] ≢ []
append-not_empty [] c e = ground arith
append-not_empty (d ∷ s) c e = ground arith

digits-not_empty : (fuel n : ℕ) → digits fuel n ≢ []
unfolding digits
digits-not_empty zero n e = ground arith
digits-not_empty (suc fuel) n e = elim (Bool-cases (ltb n 10)) [
  | inl c ↦ ground (arith, c, e)
  | inr c ↦ ground (arith, c, e, append-not_empty (digits fuel (n / 10)) (b'0' + n % 10))
]

parse-IsDigit :
    (limit : ℕ) (s : Text) → s ≢ [] → All IsDigit s → parse limit s ≡ parse_digits limit 0 s
unfolding parse
parse-IsDigit limit [] n d = absurd (n refl)
parse-IsDigit limit (c ∷ []) n d = refl
parse-IsDigit limit (c ∷ e ∷ s) n d =
    let h = d.0 in let k : (c == b'+') ≡ false = ground (arith, d.0) in rw (k) refl

-- Parsing a printed number of an unsigned type gives the number back.
pub parse-print : (limit n : ℕ) → n ≤ limit → n < 2 ^ 64 → parse limit (print n) ≡ some n
unfolding print parse_digits
parse-print limit n l h =
    parse-IsDigit limit (print n) (digits-not_empty 19 n) (digits-IsDigit 19 n)
    ∙ ap (parse_digits limit 0) (sym (append-nil (digits 19 n)))
    ∙ parse_digits-digits limit 19 n [] (omega (arith, h)) l

parse_digits-le :
    (limit n : ℕ) (s : Text) (m : ℕ) → n ≤ limit → parse_digits limit n s ≡ some m → m ≤ limit
unfolding parse_digits
parse_digits-le limit n [] m h e = ground (arith, e, h)
parse_digits-le limit n (c ∷ s) m h e =
    let k : ℕ = n * 10 + (c - b'0') in
    elim (Bool-cases (leb b'0' c && leb c b'9' && leb k limit)) [
      | inl t ↦
          parse_digits-le limit k s m (ground (arith, t))
            (sym (ap (λ v. if v then parse_digits limit k s else none) t) ∙ e)
      | inr f ↦
          absurd (ground (arith, sym (ap (λ v. if v then parse_digits limit k s else none) f) ∙ e))
    ]

-- What is parsed is in the range of the type.
pub parse-le : (limit : ℕ) (s : Text) (m : ℕ) → parse limit s ≡ some m → m ≤ limit
unfolding parse
parse-le limit [] m e = absurd (ground (arith, e))
parse-le limit (c ∷ []) m e = parse_digits-le limit 0 (c ∷ []) m (omega arith) e
parse-le limit (c ∷ d ∷ s) m e = elim (Bool-cases (c == b'+')) [
  | inl t ↦ parse_digits-le limit 0 (d ∷ s) m (omega arith) (
      sym (ap (λ v. if v then parse_digits limit 0 (d ∷ s) else parse_digits limit 0 (c ∷ d ∷ s)) t)
      ∙ e)
  | inr f ↦ parse_digits-le limit 0 (c ∷ d ∷ s) m (omega arith) (
      sym (ap (λ v. if v then parse_digits limit 0 (d ∷ s) else parse_digits limit 0 (c ∷ d ∷ s)) f)
      ∙ e)
]

-- A printed number is not empty.
pub print-digits : (n : ℕ) → (print n ≢ []) × All IsDigit (print n)
unfolding print
print-digits n = (digits-not_empty 19 n, digits-IsDigit 19 n)
