-- ===== src/Server/Cookie/RoundTrip.antt =====
-- The session cookie of Server/src/web.rs, set and read back.
use rust_poker.Base.{
  ℕ, ◌^◌, ◌<◌, ◌≡◌, ◌≢◌, refl, ap, ◌∙◌, List, [], ◌∷◌, ◌++◌, none, some, true, false, All,
  All-append, All-imp, arith,
}
use rust_poker.Base.Text.{
  Text, codes, same_text, is_whitespace, trim, split, split_where, split_once, trim_start,
  parse_digits, print, digits,
}
use rust_poker.Base.Text
use rust_poker.Base.Text.Numbers.{IsDigit, digits-IsDigit, parse-print}
use rust_poker.Base.Text.Pieces.{join, IsFree, IsSolid, IsBlank, split-join, trim-IsSolid}
use rust_poker.Server.Cookie.{
  positive, session_value, session_part, first_session, player_id_from_cookie, session_cookie,
  expired_session_cookie, u64_max,
}

-- `poker_session=<id>` behind blanks.
abbrev pub session : Text → ℕ → Text
session blanks id = blanks ++ (codes "poker_session=" ++ print id)

-- A part of the header that says nothing about the session.
abbrev pub IsForeign : Text → Type 0
IsForeign part = IsFree b';' part × (session_part part ≡ none)

print-IsDigit : (id : ℕ) → All IsDigit (print id)
unfolding print
print-IsDigit id = digits-IsDigit 19 id

digit-solid : (c : ℕ) → IsDigit c → is_whitespace c ≡ false
digit-solid c h = ground (arith, h)

named-IsSolid : (id : ℕ) → IsSolid (codes "poker_session=" ++ print id)
named-IsSolid id =
    All-append _ (codes "poker_session=") (print id) (ground arith)
      (All-imp digit-solid (print id) (print-IsDigit id))

split_once-named :
    (v : Text) → split_once b'=' (codes "poker_session=" ++ v) ≡ some (codes "poker_session", v)
unfolding split_once
split_once-named v = refl

positive-lt : (id : ℕ) → 0 < id → positive (some id) ≡ some id
positive-lt id h = ground arith

session_part-session :
    (blanks : Text) (id : ℕ)
    → IsBlank blanks
    → 0 < id
    → id < 2 ^ 64
    → session_part (session blanks id) ≡ some id
unfolding session_part
session_part-session blanks id b p h =
    ap (λ part. session_value (split_once b'=' part))
      (trim-IsSolid blanks (codes "poker_session=" ++ print id) b (named-IsSolid id))
    ∙ ap session_value (split_once-named (print id))
    ∙ ap positive (parse-print u64_max id (omega arith) h)
    ∙ positive-lt id p

solid_free : (c : ℕ) → is_whitespace c ≡ true → c ≢ b';'
solid_free c h e = ground (arith, h, e)

digit_free : (c : ℕ) → IsDigit c → c ≢ b';'
digit_free c h e = ground (arith, h, e)

foreign-IsFree : (p : Text) → IsForeign p → IsFree b';' p
foreign-IsFree p f = f.0

session-IsFree : (blanks : Text) (id : ℕ) → IsBlank blanks → IsFree b';' (session blanks id)
session-IsFree blanks id b =
    All-append _ blanks (codes "poker_session=" ++ print id) (All-imp solid_free blanks b) (
      All-append _ (codes "poker_session=") (print id) (omega arith)
        (All-imp digit_free (print id) (print-IsDigit id)))

-- Foreign parts before a part do not matter.
first_session-parts :
    (before : List Text) (part : Text) (after : List Text) (id : ℕ)
    → All IsForeign before
    → session_part part ≡ some id
    → first_session (before ++ part ∷ after) ≡ some id
unfolding first_session
first_session-parts [] part after id f e = rw (first_session, e) refl
first_session-parts (p ∷ before) part after id f e =
    rw (first_session, f.0.1) (first_session-parts before part after id f.1 e)

read_parts :
    (before : List Text) (part : Text) (after : List Text) (id : ℕ)
    → All IsForeign before
    → IsFree b';' part
    → All (IsFree b';') after
    → session_part part ≡ some id
    → player_id_from_cookie (join b';' (before ++ part ∷ after)) ≡ some id
unfolding player_id_from_cookie
read_parts [] part after id f p a e =
    ap first_session (split-join b';' part after (p, a)) ∙ first_session-parts [] part after id f e
read_parts (q ∷ before) part after id f p a e =
    ap first_session (
      split-join b';' q (before ++ part ∷ after)
        (f.0.0, All-append _ before (part ∷ after) (All-imp foreign-IsFree before f.1) (p, a)))
    ∙ first_session-parts (q ∷ before) part after id f e

-- A browser that sends its session cookie, among any others that do not speak of the session before
-- it and any at all after it, blanks before the name included, is known by the id, if the id is
-- positive and fits into 64 bits.
pub player_id_from_cookie-session :
    (before : List Text) (blanks : Text) (id : ℕ) (after : List Text)
    → All IsForeign before
    → All (IsFree b';') after
    → IsBlank blanks
    → 0 < id
    → id < 2 ^ 64
    → player_id_from_cookie (join b';' (before ++ session blanks id ∷ after)) ≡ some id
player_id_from_cookie-session before blanks id after f a b p h =
    read_parts before (session blanks id) after id f (session-IsFree blanks id b) a
      (session_part-session blanks id b p h)

expired_session_cookie-none : player_id_from_cookie expired_session_cookie ≡ none
unfolding player_id_from_cookie first_session session_part split split_where split_once trim
    trim_start Text.parse parse_digits
expired_session_cookie-none = refl

-- What the server sets as the cookie is read back as the same id, for a positive id that fits into
-- 64 bits, and an expired cookie is read as no id.
pub player_id_from_cookie-session_cookie :
    (id : ℕ)
    → 0 < id
    → id < 2 ^ 64
    → (player_id_from_cookie (session_cookie id) ≡ some id)
      × (player_id_from_cookie expired_session_cookie ≡ none)
unfolding session_cookie player_id_from_cookie
player_id_from_cookie-session_cookie id p h = (
  player_id_from_cookie-session [] [] id
      (codes " Path=/" ∷ codes " HttpOnly" ∷ codes " SameSite=Lax" ∷ []) tt (omega arith) tt p h,
  expired_session_cookie-none,
)
