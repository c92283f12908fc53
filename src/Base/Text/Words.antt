-- ===== src/Base/Text/Words.antt =====
-- The words of a line that has been put together from words.
use Prim.Native.Nat.{ℕ}
use mathlib.Core.Bool.{false, not}
use mathlib.Core.List.{List, [], ◌∷◌, ◌++◌, reverse, reverse-append, reverse-cons, reverse-reverse}
use mathlib.Core.Path.{◌≡◌, refl, sym, ap, subst, ◌∙◌}
use native.Mathlib.Omega.{arith}
use rust_poker.Base.Lists.{All, filter, is_empty}
use rust_poker.Base.Text.{Text, is_whitespace, trim_start, trim, split_where, split_whitespace}
use rust_poker.Base.Text.Pieces.{
  join, IsSolid, IsBlank, split_where-piece, split_where-last, trim_start-IsBlank, reverse-All,
}

-- A word: not empty, and with no blank.
abbrev pub IsWord : Text → Type 0
IsWord s = (is_empty s ≡ false) × IsSolid s

-- A text that begins with no blank.
abbrev Begins : Text → Type 0
Begins [] = Unit
Begins (c ∷ s) = is_whitespace c ≡ false

trim_start-Begins : (s : Text) → Begins s → trim_start s ≡ s
unfolding trim_start
trim_start-Begins [] h = refl
trim_start-Begins (c ∷ s) h = rw (h) refl

Begins-append : (s t : Text) → is_empty s ≡ false → Begins s → Begins (s ++ t)
Begins-append [] t n h = absurd (ground (arith, n))
Begins-append (c ∷ s) t n h = h

IsSolid-Begins : (s : Text) → IsSolid s → Begins s
IsSolid-Begins [] h = tt
IsSolid-Begins (c ∷ s) h = h.0

-- Blanks behind a text that neither begins nor ends with one.
trim-line :
    (s blanks : Text)
    → is_empty s ≡ false
    → Begins s
    → Begins (reverse s)
    → IsBlank blanks
    → trim (s ++ blanks) ≡ s
unfolding trim
trim-line s blanks n b e k =
    ap (λ v. reverse (trim_start (reverse v)))
      (trim_start-Begins (s ++ blanks) (Begins-append s blanks n b))
    ∙ ap (λ v. reverse (trim_start v)) (reverse-append s blanks)
    ∙ ap reverse (trim_start-IsBlank (reverse blanks) (reverse s) (reverse-All _ blanks k))
    ∙ ap reverse (trim_start-Begins (reverse s) e)
    ∙ reverse-reverse s

join-begin : (w : Text) (ws : List Text) → IsWord w → Begins (join b' ' (w ∷ ws))
join-begin w [] h = IsSolid-Begins w h.1
join-begin w (v ∷ ws) h = Begins-append w _ h.0 (IsSolid-Begins w h.1)

join-not_empty : (w : Text) (ws : List Text) → IsWord w → is_empty (join b' ' (w ∷ ws)) ≡ false
join-not_empty w [] h = h.0
join-not_empty [] (v ∷ ws) h = absurd (ground (arith, h))
join-not_empty (c ∷ w) (v ∷ ws) h = refl

append-not_empty : (s : Text) (c : ℕ) → is_empty (s ++ c ∷ []) ≡ false
append-not_empty [] c = refl
append-not_empty (d ∷ s) c = refl

reverse-not_empty : (s : Text) → is_empty s ≡ false → is_empty (reverse s) ≡ false
reverse-not_empty [] h = absurd (ground (arith, h))
reverse-not_empty (c ∷ s) h = rw (reverse-cons c s) (append-not_empty (reverse s) c)

join-end : (w : Text) (ws : List Text) → All IsWord (w ∷ ws) → Begins (reverse (join b' ' (w ∷ ws)))
join-end w [] h = IsSolid-Begins (reverse w) (reverse-All _ w h.0.1)
join-end w (v ∷ ws) h =
    let rest = join b' ' (v ∷ ws) in
    let last = reverse rest ++ b' ' ∷ [] in
    let begins =
      Begins-append (reverse rest) (b' ' ∷ []) (reverse-not_empty rest (join-not_empty v ws h.1.0))
        (join-end v ws h.1) in
    let turned : reverse (join b' ' (w ∷ v ∷ ws)) ≡ last ++ reverse w =
      reverse-append w (b' ' ∷ rest) ∙ ap (λ t. t ++ reverse w) (reverse-cons b' ' rest) in
    subst Begins (sym turned)
      (Begins-append last (reverse w) (append-not_empty (reverse rest) b' ') begins)

split_where-join :
    (w : Text) (ws : List Text)
    → All IsWord (w ∷ ws)
    → split_where is_whitespace (join b' ' (w ∷ ws)) ≡ w ∷ ws
split_where-join w [] h = split_where-last is_whitespace w h.0.1
split_where-join w (v ∷ ws) h =
    split_where-piece is_whitespace b' ' w (join b' ' (v ∷ ws)) refl h.0.1
    ∙ ap (◌∷◌ w) (split_where-join v ws h.1)

filter-words : (ws : List Text) → All IsWord ws → filter (λ piece. not (is_empty piece)) ws ≡ ws
filter-words [] h = refl
filter-words (w ∷ ws) h = rw (h.0.0, filter-words ws h.1) refl

-- A line of words, with blanks behind, is read as these words.
pub split_whitespace-line :
    (w : Text) (ws : List Text) (blanks : Text)
    → All IsWord (w ∷ ws)
    → IsBlank blanks
    → split_whitespace (trim (join b' ' (w ∷ ws) ++ blanks)) ≡ w ∷ ws
unfolding split_whitespace
split_whitespace-line w ws blanks h b =
    ap split_whitespace (
      trim-line (join b' ' (w ∷ ws)) blanks (join-not_empty w ws h.0) (join-begin w ws h.0)
        (join-end w ws h) b)
    ∙ ap (filter (λ piece. not (is_empty piece))) (split_where-join w ws h)
    ∙ filter-words (w ∷ ws) h
