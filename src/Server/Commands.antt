-- ===== src/Server/Commands.antt =====
-- The commands of a player on turn: the end of `run_action` of Server/src/web.rs, which
-- `handle_game_client` of Server/src/clienthandler.rs shares. `none` stands for a call that does not
-- return.
pub mod Laws
use text.Mathlib.Text.{◌==◌ as str_eq}
use rust_poker.Base.{
  ℕ, ◌-◌, ◌^◌, List, [], ◌∷◌, Option, none, some, Bool, true, false, ◌&&◌, String, if◌then◌else◌,
}
use rust_poker.Base.Text
use rust_poker.Base.Text.{Text, codes, same_text}
use rust_poker.Game.{Game}
use rust_poker.Table.{Table, Error, Reply, Result, ok, err, action_refused}
use rust_poker.Table.Bets.{raise, all_in, check}
use rust_poker.Table.Finish.{fold}
use rust_poker.Table.Rounds.{game_actions, advance_turn}

-- The words of a command against one word: `parts == [word]`.
abbrev pub is_word : String → List Text → Bool
is_word word [] = false
is_word word (p ∷ []) = same_text p (codes word)
is_word word (p ∷ q ∷ parts) = false

-- The arms of the `match` on the words.
pub data Bet : Type 0 where
  raises : ℕ → Bet
  bad_amount : Bet
  goes_all_in checks folds : Bet
  unknown : Bet

abbrev pub u64_max : ℕ
u64_max = 2 ^ 64 - 1

-- `["RAISE", amount]`.
abbrev pub raise_amount : Option ℕ → Bet
raise_amount none = bad_amount
raise_amount (some amount) = raises amount

unfoldable pub bet_of : List Text → Bet
bet_of [] = unknown
bet_of (p ∷ []) =
    if same_text p (codes "ALL_IN")
    then goes_all_in
    else if same_text p (codes "CHECK")
    then checks
    else if same_text p (codes "FOLD")
    then folds
    else unknown
bet_of (p ∷ amount ∷ []) =
    if same_text p (codes "RAISE") then raise_amount (Text.parse u64_max amount) else unknown
bet_of (p ∷ q ∷ r ∷ parts) = unknown

-- Why a command is refused: the table's error, or one of the server's texts.
pub data Refusal : Type 0 where
  of_table : Error → Refusal
  command_required not_your_turn invalid_amount invalid_command : Refusal

pub data Answer : Type 0 where
  accepted : Reply → Answer
  rejected : Refusal → Answer

abbrev pub answer : Result → Answer
answer (ok r) = accepted r
answer (err e) = rejected (of_table e)

-- The error `[BET]`, which sends a command on to the bets.
abbrev pub is_bet : Error → Bool
is_bet (action_refused text) = str_eq text "[BET]"
is_bet _ = false

module _ {G : Game} where
  -- A call of the table, answered.
  abbrev pub called : Table G × Result → Option (Table G × Answer)
  called (t, r) = some (t, answer r)

  abbrev pub returned : Option (Table G × Result) → Option (Table G × Answer)
  returned none = none
  returned (some r) = called r

  unfoldable pub run_bet : ℕ → ℕ → Bet → Table G → Option (Table G × Answer)
  run_bet now id (raises amount) t = called (raise id amount t)
  run_bet now id bad_amount t = some (t, rejected invalid_amount)
  run_bet now id goes_all_in t = called (all_in id t)
  run_bet now id checks t = called (check id t)
  run_bet now id folds t = returned (fold now id t)
  run_bet now id unknown t = some (t, rejected invalid_command)

  -- The turn goes on after a call that has been answered by `Ok`.
  unfoldable pub then_advance : ℕ → ℕ → Option (Table G × Answer) → Option (Table G × Answer)
  then_advance fuel now none = none
  then_advance fuel now (some (t, rejected e)) = some (t, rejected e)
  then_advance fuel now (some (t, accepted r)) = elim (advance_turn fuel now t) [
    | none ↦ none
    | some t' ↦ some (t', accepted r)
  ]

  -- After `game_actions`.
  unfoldable pub after_game :
      ℕ → ℕ → ℕ → List Text → Option (Table G × Result) → Option (Table G × Answer)
  unfolding bet_of run_bet then_advance
  after_game fuel now id parts none = none
  after_game fuel now id parts (some (t, ok r)) = then_advance fuel now (some (t, accepted r))
  after_game fuel now id parts (some (t, err e)) =
      if is_bet e
      then then_advance fuel now (run_bet now id (bet_of parts) t)
      else some (t, rejected (of_table e))

  -- What a command of the player on turn does.
  unfoldable pub run_turn : ℕ → ℕ → ℕ → List Text → Table G → Option (Table G × Answer)
  unfolding after_game
  run_turn fuel now id parts t = after_game fuel now id parts (game_actions id parts t)
