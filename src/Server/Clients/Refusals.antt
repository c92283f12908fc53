-- ===== src/Server/Clients/Refusals.antt =====
-- The requests of a client who is not on turn, Server/src/clienthandler.rs.
use rust_poker.Base.{
  ℕ, ◌≡◌, refl, sym, ap, ◌∙◌, List, Option, none, some, Option-cases, Bool, false, Bool-cases, inl,
  inr, is_empty,
}
use rust_poker.Base.Text.{Text}
use rust_poker.Game.{Game}
use rust_poker.Player.{Player, Addr}
use rust_poker.Table.{Table, Players}
use rust_poker.Table.View.{turn_id}
use rust_poker.Server.Commands.{is_word}
use rust_poker.Server.Web.{is_id}
use rust_poker.Server.Clients.{Client, Outcome, continues, is_turn, debug_command}
use rust_poker.Server.Clients.Rounds.{join_request, joined_command, command, request}

module _ {G : Game} where
  -- The round goes on with the same table.
  abbrev pub Leaves : Table G → Option (Outcome G) → Type 0
  Leaves t o = (c : Client) × (o ≡ some (continues c t))

  joined_command-Leaves :
      (fuel now : ℕ) (writable on_turn : Bool) (id : ℕ) (parts : List Text) (c : Client)
      (t : Table G)
      → is_id id (turn_id t) ≡ false
      → is_word "LEAVE" parts ≡ false
      → Leaves t (joined_command fuel now writable on_turn id parts c t)
  unfolding joined_command
  joined_command-Leaves fuel now writable on_turn id parts c t n l =
      elim (Bool-cases (is_word "UPDATE" parts)) [
        | inl e ↦ rw (joined_command, l, e) (c, refl)
        | inr e ↦ rw (joined_command, l, e, n) (_, refl)
      ]

  other_turn :
      (c : Client) (t : Table G) (id : ℕ)
      → is_turn c t ≡ false
      → c.player_id ≡ some id
      → is_id id (turn_id t) ≡ false
  unfolding is_turn
  other_turn c t id h e =
      sym (
        ap (λ (o : Option ℕ). elim o as (λ _. Bool) [ none ↦ false | some k ↦ is_id k (turn_id t) ])
          e)
      ∙ h

  -- A client who is not on turn, or has not joined, changes nothing at the table by whatever request,
  -- but to leave, to join, or by a debug command, and the thread goes on to the next request.
  pub request-Leaves :
      (insert : ℕ → Addr → Players → Players) (fetch : ℕ → Option Player)
      (shuffle : List ℕ → List ℕ) (fuel now : ℕ) (writable : Bool) (parts : List Text) (c : Client)
      (t : Table G)
      → is_turn c t ≡ false
      → is_word "LEAVE" parts ≡ false
      → join_request parts ≡ none
      → debug_command fuel now shuffle writable parts c t ≡ none
      → Leaves t (request insert fetch shuffle fuel now writable (is_turn c t) parts c t)
  unfolding request command
  request-Leaves insert fetch shuffle fuel now writable parts c t n l j d =
      elim (Bool-cases (is_empty parts)) [
        | inl e ↦ rw (request, e) (_, refl)
        | inr e ↦ elim (Bool-cases (is_word "PONG" parts)) [
          | inl f ↦ rw (request, e, f) (c, refl)
          | inr f ↦ elim (Option-cases c.player_id) [
            | inl g ↦ rw (request, e, f, d, command, j, g) (_, refl)
            | inr (id, g) ↦
                rw (request, e, f, d, command, j, g)
                  (joined_command-Leaves fuel now writable (is_turn c t) id parts c t
                    (other_turn c t id n g) l)
          ]
        ]
      ]
