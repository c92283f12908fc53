-- ===== src/Base/Text/Pieces.antt =====
-- Splitting and trimming texts.
use Prim.Native.Nat.{ℕ}
use mathlib.Core.Bool.{Bool, true, false}
use mathlib.Core.List.{List, [], ◌∷◌, ◌++◌, reverse, reverse-reverse, reverse-cons}
use mathlib.Core.Logic.{◌≢◌}
use mathlib.Core.Path.{◌≡◌, refl, ap, ◌∙◌}
use native.Mathlib.Omega.{arith}
use rust_poker.Base.Tests.{◌==◌, ==_refl}
use rust_poker.Base.Lists.{All, All-append}
use rust_poker.Base.Text.{Text, is_whitespace, trim_start, trim, split_where, split}

-- The pieces, with a character between each and the next.
abbrev pub join : ℕ → List Text → Text
join mark [] = []
join mark (s ∷ []) = s
join mark (s ∷ r ∷ later) = s ++ mark ∷ join mark (r ∷ later)

abbrev pub IsFree : ℕ → Text → Type 0
IsFree mark s = All (λ c. c ≢ mark) s

abbrev pub IsSolid : Text → Type 0
IsSolid s = All (λ c. is_whitespace c ≡ false) s

abbrev pub IsBlank : Text → Type 0
IsBlank s = All (λ c. is_whitespace c ≡ true) s

other : (a b : ℕ) → a ≢ b → (a == b) ≡ false
other a b n = ground arith

-- Splitting where a test holds.
pub split_where-piece :
    (mark : ℕ → Bool) (c : ℕ) (s rest : Text)
    → mark c ≡ true
    → All (λ d. mark d ≡ false) s
    → split_where mark (s ++ c ∷ rest) ≡ s ∷ split_where mark rest
unfolding split_where
split_where-piece mark c [] rest e f = rw (e) refl
split_where-piece mark c (d ∷ s) rest e f = rw (f.0, split_where-piece mark c s rest e f.1) refl

pub split_where-last :
    (mark : ℕ → Bool) (s : Text) → All (λ d. mark d ≡ false) s → split_where mark s ≡ s ∷ []
unfolding split_where
split_where-last mark [] f = refl
split_where-last mark (d ∷ s) f = rw (f.0, split_where-last mark s f.1) refl

pub split-piece :
    (mark : ℕ) (s rest : Text) → IsFree mark s → split mark (s ++ mark ∷ rest) ≡ s ∷ split mark rest
unfolding split split_where
split-piece mark [] rest f = rw (==_refl mark) refl
split-piece mark (c ∷ s) rest f = rw (other c mark f.0, split-piece mark s rest f.1) refl

pub split-last : (mark : ℕ) (s : Text) → IsFree mark s → split mark s ≡ s ∷ []
unfolding split split_where
split-last mark [] f = refl
split-last mark (c ∷ s) f = rw (other c mark f.0, split-last mark s f.1) refl

-- Splitting takes apart what joining has put together.
pub split-join :
    (mark : ℕ) (s : Text) (later : List Text)
    → All (IsFree mark) (s ∷ later)
    → split mark (join mark (s ∷ later)) ≡ s ∷ later
split-join mark s [] f = split-last mark s f.0
split-join mark s (r ∷ later) f =
    split-piece mark s (join mark (r ∷ later)) f.0 ∙ ap (◌∷◌ s) (split-join mark r later f.1)

pub trim_start-IsBlank : (b s : Text) → IsBlank b → trim_start (b ++ s) ≡ trim_start s
unfolding trim_start
trim_start-IsBlank [] s h = refl
trim_start-IsBlank (c ∷ b) s h = rw (h.0) (trim_start-IsBlank b s h.1)

pub trim_start-IsSolid : (s : Text) → IsSolid s → trim_start s ≡ s
unfolding trim_start
trim_start-IsSolid [] h = refl
trim_start-IsSolid (c ∷ s) h = rw (h.0) refl

pub reverse-All {κ} : (P : ℕ → Type κ) (s : Text) → All P s → All P (reverse s)
reverse-All P [] h = h
reverse-All P (c ∷ s) h =
    rw (reverse-cons c s) (All-append P (reverse s) (c ∷ []) (reverse-All P s h.1) (h.0, tt))

-- Trimming takes the blanks before a text with no blanks away.
pub trim-IsSolid : (b s : Text) → IsBlank b → IsSolid s → trim (b ++ s) ≡ s
unfolding trim
trim-IsSolid b s h k =
    rw
      (
        trim_start-IsBlank b s h,
        trim_start-IsSolid s k,
        trim_start-IsSolid (reverse s) (reverse-All _ s k),
      )
      (reverse-reverse s)
