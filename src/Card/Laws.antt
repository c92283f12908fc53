-- ===== src/Card/Laws.antt =====
-- Laws of the card byte in Poker/src/card.rs, by evaluation over all bytes.
use text.Mathlib.Text.{◌==◌ as str_eq}
use text.Mathlib.TextEquality.{eq_iff}
use rust_poker.Base.{
  ℕ, ◌||◌, leb, ◌+◌, ◌*◌, ◌/◌, ◌%◌, ◌<◌, ◌≡◌, refl, Bool, true, false, not, ◌&&◌, ◌||◌, arith, ◌==◌,
  leb, if◌then◌else◌, holds_below, holds_at,
}
use rust_poker.Card.{
  Card, encode_card, decode_card, decode, face_up, flip, flip_up, flip_down, to_string,
  from_encoded,
}

-- Equality of two decoded cards.
abbrev same : ℕ × ℕ → ℕ × ℕ → Bool
same (a, b) (c, d) = (a == c) && (b == d)

same-eq : (p q : ℕ × ℕ) → same p q ≡ true → p ≡ q
same-eq (a, b) (c, d) h = ground arith

packs : ℕ → Bool
packs c =
    same (decode_card (encode_card (c / 16) (c % 16))) (c / 16, c % 16)
    && (encode_card (decode_card c).0 (decode_card c).1 == c)

packs_table : holds_below 64 packs ≡ true
unfolding holds_below packs decode_card encode_card
packs_table = refl

packed :
    (c : ℕ)
    → c < 64
    → (same (decode_card (encode_card (c / 16) (c % 16))) (c / 16, c % 16) ≡ true)
      × ((encode_card (decode_card c).0 (decode_card c).1 == c) ≡ true)
unfolding packs
packed c h = ground (arith, holds_at 64 packs c packs_table h)

-- A suit below 4 and a value below 16 come back from their byte as they went in.
pub decode_card-encode_card :
    (suit value : ℕ) → suit < 4 → value < 16 → decode_card (encode_card suit value) ≡ (suit, value)
unfolding packs
decode_card-encode_card suit value hs hv =
    let c = suit * 16 + value in
    let e : c / 16 ≡ suit = omega arith in
    let e' : c % 16 ≡ value = omega arith in
    rw (e, e') at
      (same-eq (decode_card (encode_card (c / 16) (c % 16))) _ (packed c (omega arith)).0)

-- A byte below 64 is the encoding of its suit and value.
pub encode_card-decode_card : (c : ℕ) → c < 64 → encode_card (decode_card c).0 (decode_card c).1 ≡ c
unfolding packs
encode_card-decode_card c h = ground (arith, holds_at 64 packs c packs_table h)

turns : ℕ → Bool
turns b =
    let c = from_encoded b in
    same (decode (flip c)) (decode c)
    && same (decode (flip_up c)) (decode c)
    && same (decode (flip_down c)) (decode c)
    && not (face_up (flip_down c))
    && face_up (flip_up c)
    && ((flip (flip c)).byte == b)
    && (if face_up c then not (face_up (flip c)) else face_up (flip c))

turns_table : holds_below 128 turns ≡ true
unfolding holds_below turns from_encoded decode face_up flip flip_up flip_down
turns_table = refl

-- On a byte below 128 the three turning operations keep suit and value; `flip_up` and `flip_down`
-- set the mark, and `flip` inverts it and is its own inverse.
pub turning_keeps_card :
    (c : Card)
    → c.byte < 128
    → (decode (flip c) ≡ decode c)
      × (decode (flip_up c) ≡ decode c)
      × (decode (flip_down c) ≡ decode c)
      × (face_up (flip_down c) ≡ false)
      × (face_up (flip_up c) ≡ true)
      × (face_up (flip c) ≡ not (face_up c))
      × (flip (flip c) ≡ c)
unfolding turns from_encoded
turning_keeps_card c h =
    let t = holds_at 128 turns c.byte turns_table h in
    ground (
      arith,
      t,
      same-eq (decode (flip c)) (decode c),
      same-eq (decode (flip_up c)) (decode c),
      same-eq (decode (flip_down c)) (decode c),
    )

-- A real card: one of the values 1 to 13 in its low four bits.
abbrev pub IsCard : ℕ → Type 0
IsCard c = (c < 64) × (0 < c % 16) × (c % 16 < 14)

tells_apart : ℕ → ℕ → Bool
tells_apart c d =
    leb (c % 16) 0
    || leb 14 (c % 16)
    || leb (d % 16) 0
    || leb 14 (d % 16)
    || not (str_eq (to_string (from_encoded c)) (to_string (from_encoded d)))
    || (c == d)

texts_table : holds_below 64 (λ c. holds_below 64 (tells_apart c)) ≡ true
unfolding holds_below tells_apart to_string from_encoded
texts_table = refl

-- Two real cards with the same text are the same card.
pub to_string_injective :
    (c d : ℕ)
    → IsCard c
    → IsCard d
    → to_string (from_encoded c) ≡ to_string (from_encoded d)
    → c ≡ d
unfolding tells_apart
to_string_injective c d h k e =
    let row = holds_at 64 _ c texts_table h.0 in
    ground (
      arith,
      holds_at 64 (tells_apart c) d row k.0,
      eq_iff (to_string (from_encoded c)) (to_string (from_encoded d)),
    )
