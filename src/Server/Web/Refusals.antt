-- ===== src/Server/Web/Refusals.antt =====
-- The web commands that are refused, Server/src/web.rs.
use rust_poker.Base.{
  ℕ, ◌≡◌, ◌≢◌, refl, ap, List, Option, none, some, Bool, false, ◌||◌, Bool-cases, inl, inr, ◌==◌,
  if◌then◌else◌, is_empty, arith,
}
use rust_poker.Base.Text.{Text, trim, split_whitespace}
use rust_poker.Game.{Game}
use rust_poker.Table.{Table}
use rust_poker.Table.View.{turn_id}
use rust_poker.Server.Commands.{rejected, command_required, not_your_turn, is_word}
use rust_poker.Server.Web.{is_id, run_words, run_action}

-- The commands that any player may send at any time.
abbrev pub is_free : List Text → Bool
is_free parts = is_word "LEAVE" parts || is_word "UPDATE" parts || is_word "KEEP_PLAYING" parts

is_id_other : (id : ℕ) (turn : Option ℕ) → turn ≢ some id → is_id id turn ≡ false
is_id_other id none n = refl
is_id_other id (some k) n = elim (Bool-cases (k == id)) [
  | inl c ↦ absurd (n (ap some (ground (arith, c))))
  | inr c ↦ c
]

module _ {G : Game} where
  -- Whoever is not on turn is refused every command but to leave, to be updated and to keep playing,
  -- whatever else its text is, and the table stays as it is.
  pub run_action-not_your_turn :
      (fuel now id : ℕ) (command : Text) (t : Table G)
      → turn_id t ≢ some id
      → is_free (split_whitespace (trim command)) ≡ false
      → run_action fuel now id command t
        ≡ some (t, rejected (if is_empty (trim command) then command_required else not_your_turn))
  unfolding run_action run_words
  run_action-not_your_turn fuel now id command t n f =
      let parts = split_whitespace (trim command) in
      let other = is_id_other id (turn_id t) n in
      let leave : is_word "LEAVE" parts ≡ false = ground (arith, f) in
      let update : is_word "UPDATE" parts ≡ false = ground (arith, f) in
      let keep : is_word "KEEP_PLAYING" parts ≡ false = ground (arith, f) in
      elim (Bool-cases (is_empty (trim command))) [
        | inl c ↦ rw (run_action, c) refl
        | inr c ↦ rw (run_action, c, run_words, leave, update, keep, other) refl
      ]
