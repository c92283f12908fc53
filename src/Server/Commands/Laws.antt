-- ===== src/Server/Commands/Laws.antt =====
-- The commands of a player on turn as plays of the table, Server/src/web.rs.
use rust_poker.Base.{ℕ, refl, List, Option, none, some, Option-cases, OnSome, Bool-cases, inl, inr}
use rust_poker.Base.Text.{Text}
use rust_poker.Game.{Game}
use rust_poker.Table.{Table, Result, ok, err}
use rust_poker.Table.Finish.{fold}
use rust_poker.Table.Rounds.{game_actions, advance_turn}
use rust_poker.Table.Steps
use rust_poker.Table.Steps.{Play, Plays, Plays_trans, acts, turns, here, next}
use rust_poker.Server.Commands.{
  Bet, raises, bad_amount, goes_all_in, checks, folds, unknown, Answer, accepted, rejected, is_bet,
  bet_of, run_bet, then_advance, after_game, run_turn,
}

module _ {G : Game} where
  -- A result whose table is reached by plays.
  abbrev pub Reaches {ℓ} : {A : Type ℓ} → Table G → Option (Table G × A) → Type 0
  Reaches t o = OnSome (λ r. Plays t r.0) o

  one : {t u : Table G} → Play t u → Plays t u
  one p = next here p

  pub run_bet-Reaches : (now id : ℕ) (b : Bet) (t : Table G) → Reaches t (run_bet now id b t)
  unfolding run_bet
  run_bet-Reaches now id (raises amount) t = one (Steps.raises id amount refl)
  run_bet-Reaches now id bad_amount t = here
  run_bet-Reaches now id goes_all_in t = one (Steps.goes_all_in id refl)
  run_bet-Reaches now id checks t = one (Steps.checks id refl)
  run_bet-Reaches now id folds t = elim (Option-cases (fold now id t)) [
    | inl e ↦ rw (run_bet, e) tt
    | inr ((u, r), e) ↦ rw (run_bet, e) (one (Steps.folds now id r e))
  ]
  run_bet-Reaches now id unknown t = here

  then_advance-Reaches :
      (fuel now : ℕ) (t : Table G) (o : Option (Table G × Answer))
      → Reaches t o
      → Reaches t (then_advance fuel now o)
  unfolding then_advance
  then_advance-Reaches fuel now t none h = tt
  then_advance-Reaches fuel now t (some (u, rejected e)) h = h
  then_advance-Reaches fuel now t (some (u, accepted r)) h =
      elim (Option-cases (advance_turn fuel now u)) [
        | inl e ↦ rw (then_advance, e) tt
        | inr (v, e) ↦ rw (then_advance, e) (next h (turns fuel now e))
      ]

  pub after_trans :
      (t u : Table G) (o : Option (Table G × Answer)) → Plays t u → Reaches u o → Reaches t o
  after_trans t u none p h = tt
  after_trans t u (some r) p h = Plays_trans p h

  after_game-Reaches :
      (fuel now id : ℕ) (parts : List Text) (t : Table G) (o : Option (Table G × Result))
      → Reaches t o
      → Reaches t (after_game fuel now id parts o)
  unfolding after_game
  after_game-Reaches fuel now id parts t none h = tt
  after_game-Reaches fuel now id parts t (some (u, ok r)) h =
      then_advance-Reaches fuel now t (some (u, accepted r)) h
  after_game-Reaches fuel now id parts t (some (u, err e)) h = elim (Bool-cases (is_bet e)) [
    | inl c ↦
        rw (after_game, c)
          (then_advance-Reaches fuel now t _
            (after_trans t u _ h (run_bet-Reaches now id (bet_of parts) u)))
    | inr c ↦ rw (after_game, c) h
  ]

  pub game_actions-Reaches :
      (id : ℕ) (parts : List Text) (t : Table G) → Reaches t (game_actions id parts t)
  game_actions-Reaches id parts t = elim (Option-cases (game_actions id parts t)) [
    | inl e ↦ rw (e) tt
    | inr ((u, r), e) ↦ rw (e) (one (acts id parts r e))
  ]

  -- What a command of the player on turn does is a sequence of plays.
  pub run_turn-Reaches :
      (fuel now id : ℕ) (parts : List Text) (t : Table G) → Reaches t (run_turn fuel now id parts t)
  unfolding run_turn
  run_turn-Reaches fuel now id parts t =
      after_game-Reaches fuel now id parts t (game_actions id parts t)
        (game_actions-Reaches id parts t)
