-- ===== src/Server/Cookie/Bounds.antt =====
-- The ids that the session cookies of Server/src/web.rs hold.
use rust_poker.Base.{
  ℕ, ◌^◌, ◌<◌, ◌%◌, ◌≡◌, ap, subst, List, [], ◌∷◌, Option, none, some, true, false, Bool-cases,
  Bool, Option-cases, inl, inr, ltb, ltb→lt, ◌==◌, take, arith,
}
use rust_poker.Base.Text
use rust_poker.Base.Text.{Text, codes, same_text, split, split_once, trim}
use rust_poker.Base.Text.Numbers.{parse-le}
use rust_poker.Server.Cookie.{
  positive, session_value, session_part, first_session, player_id_from_cookie, session_cookie,
  new_player_id, session_player_id, from_be_bytes, u64_max, max_safe_js_integer,
}
use rust_poker.Server.Cookie.RoundTrip.{player_id_from_cookie-session_cookie}

-- An id that the parser of a session gives.
abbrev pub IsId : Option ℕ → Type 0
IsId none = Unit
IsId (some id) = (0 < id) × (id < 2 ^ 64)

positive-IsId : (text : Text) → IsId (positive (Text.parse u64_max text))
positive-IsId text = elim (Option-cases (Text.parse u64_max text)) [
  | inl e ↦ rw (e) tt
  | inr (id, e) ↦ elim (Bool-cases (ltb 0 id)) [
    | inl c ↦ rw (e, c) (ltb→lt 0 id c, omega (arith, parse-le u64_max text id e))
    | inr c ↦ rw (e, c) tt
  ]
]

session_value-IsId : (o : Option (Text × Text)) → IsId (session_value o)
session_value-IsId none = tt
session_value-IsId (some (name, value)) =
    elim (Bool-cases (same_text name (codes "poker_session"))) [
      | inl c ↦ rw (c) (positive-IsId value)
      | inr c ↦ rw (c) tt
    ]

first_session-IsId : (parts : List Text) → IsId (first_session parts)
unfolding first_session session_part
first_session-IsId [] = tt
first_session-IsId (part ∷ parts) =
    let here = session_value-IsId (split_once b'=' (trim part)) in
    elim (Option-cases (session_value (split_once b'=' (trim part)))) [
      | inl e ↦ rw (first_session, e) (first_session-IsId parts)
      | inr (id, e) ↦ rw (first_session, e) (subst IsId e here)
    ]

-- A new id is positive and below the largest integer that JavaScript holds exactly.
pub new_player_id_bounds :
    (bytes : List ℕ) → (0 < new_player_id bytes) × (new_player_id bytes < max_safe_js_integer)
unfolding new_player_id
new_player_id_bounds bytes =
    let id = from_be_bytes 0 (take 8 bytes) % max_safe_js_integer in
    elim (Bool-cases (id == 0)) [
      | inl c ↦ rw (new_player_id, c) (omega arith)
      | inr c ↦ rw (new_player_id, c) (ground (arith, c), omega arith)
    ]

session_player_id-IsId :
    (bytes : List ℕ) (header : Option Text) → IsId (some (session_player_id bytes header).0)
unfolding session_player_id player_id_from_cookie
session_player_id-IsId bytes none = omega (arith, new_player_id_bounds bytes)
session_player_id-IsId bytes (some header) =
    let read = first_session-IsId (split b';' header) in
    elim (Option-cases (first_session (split b';' header))) [
      | inl e ↦ rw (session_player_id, e) (omega (arith, new_player_id_bounds bytes))
      | inr (id, e) ↦ rw (session_player_id, e) (subst IsId e read)
    ]

-- A browser that sends back the cookie of its session is the same player as before, whatever it sent
-- before, and gets no new cookie.
pub session_player_id-again :
    (bytes later : List ℕ) (header : Option Text)
    → session_player_id later (some (session_cookie (session_player_id bytes header).0))
      ≡ ((session_player_id bytes header).0, false)
unfolding session_player_id
session_player_id-again bytes later header =
    let id = (session_player_id bytes header).0 in
    let b = session_player_id-IsId bytes header in
    let e = (player_id_from_cookie-session_cookie id b.0 b.1).0 in
    ap (λ o. elim o as (λ _. ℕ × Bool) [ none ↦ (new_player_id later, true) | some i ↦ (i, false) ])
      e
