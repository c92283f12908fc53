-- ===== src/Table/Steps.antt =====
-- The operations of a table of Server/src/lib.rs as a step relation: what its clients, its monitor
-- and its debug commands may do to it, in any order. A step is a call that returns.
pub mod Chips
use rust_poker.Base.{ℕ, ◌+◌, ◌≤◌, ◌≡◌, refl, subst, List, Option, none, some, arith}
use rust_poker.Base.Text.{Text}
use rust_poker.Game.{Game}
use rust_poker.Player.{Player, Addr, Stream}
use rust_poker.Table.{Table, Players, Result, keep_playing, persist_player}
use rust_poker.Table.Bets.{raise, all_in, check}
use rust_poker.Table.Expiry.{expire_timed_out_turn, remove_unconfirmed_players}
use rust_poker.Table.Finish.{end_game, fold}
use rust_poker.Table.Rounds.{game_actions, advance_turn, start_game}
use rust_poker.Table.Seats.{add_player_with_optional_stream, remove_player}

module _ {G : Game} where
  -- What the players of a game do among themselves, and a player's row written. A game starts between
  -- games, when the pot has been paid out.
  pub data Play (t u : Table G) : Type 0 where
    raises : (id amount : ℕ) → u ≡ (raise id amount t).0 → Play t u
    goes_all_in : (id : ℕ) → u ≡ (all_in id t).0 → Play t u
    checks : (id : ℕ) → u ≡ (check id t).0 → Play t u
    folds : (now id : ℕ) (r : Result) → fold now id t ≡ some (u, r) → Play t u
    acts :
        (id : ℕ) (parts : List Text) (r : Result) → game_actions id parts t ≡ some (u, r) → Play t u
    turns : (fuel now : ℕ) → advance_turn fuel now t ≡ some u → Play t u
    ends : u ≡ end_game t → Play t u
    writes : (p : Player) → u ≡ persist_player p t → Play t u
    stays : (id : ℕ) → u ≡ (keep_playing id t).0 → Play t u
    starts :
        (fuel now : ℕ) (shuffle : List ℕ → List ℕ)
        → t.pot ≡ 0
        → start_game fuel now shuffle t ≡ some u
        → Play t u

  -- A step, with a bound on the chips that it brings to the table. Who joins has no bet yet.
  pub data Step (insert : ℕ → Addr → Players → Players) (t : Table G) (brought : ℕ) (u : Table G)
      : Type 0 where
    plays : Play t u → Step insert t brought u
    leaves :
        (now id : ℕ) (r : Result) → remove_player now id t ≡ some (u, r) → Step insert t brought u
    expires :
        (fuel now : ℕ) (gone : Option ℕ)
        → expire_timed_out_turn fuel now t ≡ some (u, gone)
        → Step insert t brought u
    clears : (now : ℕ) → remove_unconfirmed_players now t ≡ some u → Step insert t brought u
    joins :
        (p : Player) (stream : Option Stream) (r : Result)
        → p.bet ≡ 0
        → p.wallet ≡ brought
        → add_player_with_optional_stream insert p stream t ≡ some (u, r)
        → Step insert t brought u

  -- A sequence of plays.
  pub data Plays (t : Table G) : Table G → Type 0 where
    here : Plays t t
    next : {u v : Table G} → Plays t u → Play u v → Plays t v

  pub Plays_trans : {t u v : Table G} → Plays t u → Plays u v → Plays t v
  Plays_trans p here = p
  Plays_trans p (next q s) = next (Plays_trans p q) s

  -- A sequence of steps, with a bound on the chips that they bring in all.
  pub data Run (insert : ℕ → Addr → Players → Players) (t : Table G) : ℕ → Table G → Type 0 where
    stop : {n : ℕ} → n ≡ 0 → Run insert t n t
    step :
        {n m k : ℕ} {u v : Table G}
        → Run insert t n u
        → Step insert u m v
        → k ≡ n + m
        → Run insert t k v

  pub Run_of_Plays :
      (insert : ℕ → Addr → Players → Players) {t u : Table G} → Plays t u → Run insert t 0 u
  Run_of_Plays insert here = stop refl
  Run_of_Plays insert (next p s) = step {m = 0} (Run_of_Plays insert p) (plays s) refl

  pub Run_trans :
      (insert : ℕ → Addr → Players → Players) {t u : Table G} {n m : ℕ} {v : Table G}
      → Run insert t n u
      → Run insert u m v
      → Run insert t (n + m) v
  Run_trans insert {t} {u} {n} {m} p (stop z) = subst (λ k. Run insert t k u) (omega (arith, z)) p
  Run_trans insert {t} {u} {n} {m} p (step {n = a} {m = b} q s e) =
      step (Run_trans insert p q) s (omega (arith, e))
